-- ===== src/Io/Discovery/Found.antt =====
-- The entries of a search, as lists.
use node_red_contrib_eelectr.Base.{
  ℕ, ◌≡◌, refl, sym, ap, arith, ◌∙◌, true, ◌||◌, Option, none, some, List, [], ◌∷◌, ◌++◌, map,
  append-nil, append_assoc, if◌then◌else◌, Bytes, Result, ok, err, list_eq, list_eq_sound,
  Bool-cases, inl, inr,
}
use node_red_contrib_eelectr.Core.Text.{Text}
use node_red_contrib_eelectr.Core.Bodies.SearchResponse.{SearchResponse}
use node_red_contrib_eelectr.Core.Frame.{
  KnxipFrame, KnxipBody, search_request_body, from_body, body_calculated_length,
}
use node_red_contrib_eelectr.Core.Frame
use node_red_contrib_eelectr.Io.Discovery.{
  DiscoveredGateway, key, has_key, entry_of, add, response_of, values,
}

-- The SEARCH_RESPONSEs among the datagrams.
abbrev pub answer : Result (KnxipFrame × ℕ) → Option SearchResponse
answer (ok (frame, n)) = response_of frame.body
answer (err e) = none

abbrev pub prepend : Option SearchResponse → List SearchResponse → List SearchResponse
prepend none rs = rs
prepend (some r) rs = r ∷ rs

abbrev pub responses : List Bytes → List SearchResponse
responses [] = []
responses (x ∷ xs) = prepend (answer (Frame.from_knx x)) (responses xs)

abbrev endpoint : SearchResponse → Text
endpoint r = key r.control_endpoint

abbrev without : Text → List SearchResponse → List SearchResponse
without k [] = []
without k (r ∷ rs) = let rest = without k rs in if list_eq k (endpoint r) then rest else r ∷ rest

-- The first response of each control endpoint, in the order in which they came.
abbrev pub firsts : List SearchResponse → List SearchResponse
firsts [] = []
firsts (r ∷ rs) = r ∷ without (endpoint r) (firsts rs)

abbrev Map : Type 0
Map = List (Text × DiscoveredGateway)

abbrev pub unseen : Map → List SearchResponse → List SearchResponse
unseen found [] = []
unseen found (r ∷ rs) =
    let rest = unseen found rs in if has_key (endpoint r) found then rest else r ∷ rest

abbrev pub entries : List SearchResponse → Map
entries [] = []
entries (r ∷ rs) = (endpoint r, entry_of r) ∷ entries rs

abbrev pub add_all : List SearchResponse → Map → Map
add_all [] found = found
add_all (r ∷ rs) found = add_all rs (add r found)

has_key-append : (k : Text) (xs ys : Map) → has_key k (xs ++ ys) ≡ (has_key k xs || has_key k ys)
unfolding has_key
has_key-append k [] ys = refl
has_key-append k ((k', g) ∷ xs) ys = ground (arith, has_key-append k xs ys)

pub unseen_none : (rs : List SearchResponse) → unseen [] rs ≡ rs
unfolding has_key
unseen_none [] = refl
unseen_none (r ∷ rs) = ap (λ (t : List SearchResponse). r ∷ t) (unseen_none rs)

unseen-without :
    (k : Text) (found : Map) (rs : List SearchResponse)
    → has_key k found ≡ true
    → unseen found (without k rs) ≡ unseen found rs
unseen-without k found [] h = refl
unseen-without k found (r ∷ rs) h = elim (Bool-cases (list_eq k (endpoint r))) [
  | inl e ↦
      let seen : has_key (endpoint r) found ≡ true =
        ap (λ t. has_key t found) (sym (list_eq_sound k (endpoint r) e)) ∙ h in
      rw e (rw seen (unseen-without k found rs h))
  | inr e ↦ rw e (rw (unseen-without k found rs h) refl)
]

unseen-snoc :
    (k : Text) (g : DiscoveredGateway) (found : Map) (rs : List SearchResponse)
    → unseen (found ++ ((k, g) ∷ [])) rs ≡ unseen found (without k rs)
unfolding has_key
unseen-snoc k g found [] = refl
unseen-snoc k g found (r ∷ rs) =
    ground (arith, unseen-snoc k g found rs, has_key-append (endpoint r) found ((k, g) ∷ []))

pub add_all-firsts :
    (rs : List SearchResponse) (found : Map)
    → add_all rs found ≡ found ++ entries (unseen found (firsts rs))
unfolding add
add_all-firsts [] found = sym (append-nil found)
add_all-firsts (r ∷ rs) found = elim (Bool-cases (has_key (endpoint r) found)) [
  | inl h ↦ rw h (
      add_all-firsts rs found
      ∙ ap (λ t. found ++ entries t) (sym (unseen-without (endpoint r) found (firsts rs) h)))
  | inr h ↦
      let e : Text × DiscoveredGateway = (endpoint r, entry_of r) in
      rw h (
        add_all-firsts rs (found ++ (e ∷ []))
        ∙ append_assoc found (e ∷ []) (entries (unseen (found ++ (e ∷ [])) (firsts rs)))
        ∙ ap (λ t. found ++ e ∷ entries t)
            (unseen-snoc (endpoint r) (entry_of r) found (firsts rs)))
]

pub values-entries : (rs : List SearchResponse) → values (entries rs) ≡ map entry_of rs
unfolding values
values-entries [] = refl
values-entries (r ∷ rs) = ap (λ t. entry_of r ∷ t) (values-entries rs)
