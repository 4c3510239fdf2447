-- ===== src/Util/Cron/Words.antt =====
-- Words that single spaces separate, as an expression is read.
use node_red_contrib_eelectr.Base.{
  ℕ, ◌≤◌, ◌≡◌, refl, ap, arith, ◌∙◌, Bool, true, false, ◌==◌, List, [], ◌∷◌, ◌++◌, length,
}
use node_red_contrib_eelectr.Core.Text.{Text, split_on}
use node_red_contrib_eelectr.Core.Text.ParseInt.{is_space, skip_space}
use node_red_contrib_eelectr.Core.GaMatcher.{includes, is_empty, trim, trim_end}
use node_red_contrib_eelectr.Util.Cron.{collapse, sevens, beside}
use node_red_contrib_eelectr.Util.Cron.Fields.{
  spaceless, trim_end-spaceless, split_on-free, split_on_free-append, append_nonempty,
}

pub record IsWord (s : Text) : Type 0 where
  pub no_space : spaceless s ≡ true
  pub nonempty : 1 ≤ length s

abbrev pub joined : Text → List Text → Text
joined w [] = w
joined w (v ∷ vs) = w ++ 0x20 ∷ joined v vs

abbrev pub AreWords : List Text → Type 0
AreWords [] = Unit {0}
AreWords (w ∷ ws) = IsWord w × AreWords ws

not_a_space : (c : ℕ) → is_space c ≡ false → (c == 0x20) ≡ false
unfolding is_space
not_a_space c h = ground (arith, h)

includes-spaceless : (s : Text) → spaceless s ≡ true → includes 0x20 s ≡ false
unfolding includes spaceless
includes-spaceless [] h = refl
includes-spaceless (c ∷ s) h = ground (arith, h, not_a_space c, includes-spaceless s)

collapse-spaceless : (b : Bool) (s : Text) → spaceless s ≡ true → collapse b s ≡ s
unfolding collapse spaceless
collapse-spaceless b [] h = refl
collapse-spaceless b (c ∷ s) h = ground (arith, h, collapse-spaceless (is_space c) s)

collapse-after :
    (s t : Text) → spaceless s ≡ true → collapse false (s ++ 0x20 ∷ t) ≡ s ++ 0x20 ∷ collapse true t
unfolding collapse spaceless is_space
collapse-after [] t h = refl
collapse-after (c ∷ s) t h = ground (arith, h, collapse-after s t)

collapse-word :
    (b : Bool) (s t : Text) → IsWord s → collapse b (s ++ 0x20 ∷ t) ≡ s ++ 0x20 ∷ collapse true t
unfolding collapse spaceless is_space
collapse-word b [] t h = absurd (omega (arith, h.nonempty))
collapse-word b (c ∷ s) t h = ground (arith, h.no_space, collapse-after s t)

collapse-joined :
    (b : Bool) (w : Text) (ws : List Text)
    → AreWords (w ∷ ws)
    → collapse b (joined w ws) ≡ joined w ws
collapse-joined b w [] (h, hs) = collapse-spaceless b w h.no_space
collapse-joined b w (v ∷ vs) (h, hs) =
    collapse-word b w (joined v vs) h
    ∙ ap (λ (t : Text). w ++ 0x20 ∷ t) (collapse-joined true v vs hs)

joined_nonempty : (w : Text) (ws : List Text) → AreWords (w ∷ ws) → 1 ≤ length (joined w ws)
joined_nonempty w [] (h, hs) = h.nonempty
joined_nonempty w (v ∷ vs) (h, hs) = append_nonempty w (0x20 ∷ joined v vs) h.nonempty

trim_end-append : (s t : Text) → 1 ≤ length t → trim_end t ≡ t → trim_end (s ++ t) ≡ s ++ t
unfolding trim_end is_empty
trim_end-append [] t n h = h
trim_end-append (c ∷ []) [] n h = absurd (omega arith)
trim_end-append (c ∷ []) (d ∷ t) n h = rw h (ground arith)
trim_end-append (c ∷ d ∷ s) t n h = rw (trim_end-append (d ∷ s) t n h) (ground arith)

trim_end-joined :
    (w : Text) (ws : List Text) → AreWords (w ∷ ws) → trim_end (joined w ws) ≡ joined w ws
trim_end-joined w [] (h, hs) = trim_end-spaceless w h.no_space
trim_end-joined w (v ∷ vs) (h, hs) =
    trim_end-append w (0x20 ∷ joined v vs) (omega arith) (
      trim_end-append (0x20 ∷ []) (joined v vs) (joined_nonempty v vs hs) (trim_end-joined v vs hs))

skip_space-word : (s t : Text) → IsWord s → skip_space (s ++ t) ≡ s ++ t
unfolding skip_space spaceless
skip_space-word [] t h = absurd (omega (arith, h.nonempty))
skip_space-word (c ∷ s) t h = ground (arith, h.no_space)

skip_space-only : (s : Text) → IsWord s → skip_space s ≡ s
unfolding skip_space spaceless
skip_space-only [] h = absurd (omega (arith, h.nonempty))
skip_space-only (c ∷ s) h = ground (arith, h.no_space)

skip_space-joined :
    (w : Text) (ws : List Text) → AreWords (w ∷ ws) → skip_space (joined w ws) ≡ joined w ws
skip_space-joined w [] (h, hs) = skip_space-only w h
skip_space-joined w (v ∷ vs) (h, hs) = skip_space-word w (0x20 ∷ joined v vs) h

split-joined :
    (w : Text) (ws : List Text) → AreWords (w ∷ ws) → split_on 0x20 (joined w ws) ≡ w ∷ ws
split-joined w [] (h, hs) = split_on-free 0x20 w (includes-spaceless w h.no_space)
split-joined w (v ∷ vs) (h, hs) =
    split_on_free-append 0x20 w (joined v vs) (includes-spaceless w h.no_space)
    ∙ ap (λ (ts : List Text). w ∷ ts) (split-joined v vs hs)

pub sevens_absent : (b : Bool) (s : Text) → includes b'7' s ≡ false → sevens b s ≡ s
unfolding sevens includes
sevens_absent b [] h = refl
sevens_absent b (c ∷ s) h = ground (arith, h, sevens_absent (beside c) s)

-- The words of a text are what the code's trimming, collapsing and splitting return.
pub split-words :
    (w : Text) (ws : List Text)
    → AreWords (w ∷ ws)
    → split_on 0x20 (collapse false (trim (joined w ws))) ≡ w ∷ ws
unfolding trim
split-words w ws h =
    rw (skip_space-joined w ws h)
      (rw (trim_end-joined w ws h) (rw (collapse-joined false w ws h) (split-joined w ws h)))
