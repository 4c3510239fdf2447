-- ===== src/Core/Bodies/SearchResponse/DeviceInfo.antt =====
-- The device-info block of a SEARCH_RESPONSE survives the wire, if its texts are the canonical ones.
use node_red_contrib_eelectr.Base.{
  ℕ, zero, suc, ◌+◌, ◌*◌, ◌/◌, ◌%◌, ◌^◌, ◌≤◌, ◌<◌, ◌≡◌, ◌≢◌, refl, arith, ap, false, ◌==◌, [], ◌∷◌,
  ◌++◌, map, Bytes, IsByte, All, length, length-append, byte_at, take-all, ◌>>=◌, ok,
}
use node_red_contrib_eelectr.Core.Text.{Text, split_on}
use node_red_contrib_eelectr.Core.Text.ParseInt.{byte_of-show}
use node_red_contrib_eelectr.Core.Text.ParseInt.Hex.{
  hex_byte, hex_digit, to_hex, from_hex, from_hex-to_hex, byte_of-hex_byte,
}
use node_red_contrib_eelectr.Core.Address.{read_uint16_be, of_number}
use node_red_contrib_eelectr.Core.Address.Individual
use node_red_contrib_eelectr.Core.Hpai.{dotted, bytes_to_ipv4}
use node_red_contrib_eelectr.Core.Hpai.RoundTrips.{split_dotted}
use node_red_contrib_eelectr.Core.Cemi.{copy_padded}
use node_red_contrib_eelectr.Core.Bodies.SearchResponse.{
  DeviceInfoDib, join_mac, until_zero, parse_device_info, encode_device_info, stored_segments,
  dib_device_info_len, dib_type_device_info,
}

abbrev pub Six : (ℕ → Type 0) → Bytes → Type 0
Six P (a ∷ b ∷ c ∷ d ∷ e ∷ f ∷ []) = P a × P b × P c × P d × P e × P f
Six P _ = ⊥

-- A name that fits its field: at most 30 bytes, none of them zero.
abbrev pub IsNameByte : ℕ → Type 0
IsNameByte c = (c < 256) × (c ≢ 0)

pub record IsWireInfo (d : DeviceInfoDib) : Type 0 where
  pub medium_fits : d.knx_medium < 256
  pub status_fits : d.device_status < 256
  pub address_fits : d.individual_address.raw < 2 ^ 16
  pub project_fits : d.project_installation < 2 ^ 16
  pub serial_bytes : Bytes
  pub serial_six : Six IsByte serial_bytes
  pub serial_text : d.serial ≡ to_hex serial_bytes
  pub a : ℕ
  pub b : ℕ
  pub c : ℕ
  pub e : ℕ
  pub group_fits : (a < 256) × (b < 256) × (c < 256) × (e < 256)
  pub group_text : d.multicast_address ≡ dotted a b c e
  pub mac_bytes : Bytes
  pub mac_six : Six IsByte mac_bytes
  pub mac_text : d.mac_address ≡ join_mac mac_bytes
  pub name_fits : length d.friendly_name ≤ 30
  pub name_bytes : All IsNameByte d.friendly_name

length-copy_padded : (n : ℕ) (bs : Bytes) → length (copy_padded n bs) ≡ n
length-copy_padded zero bs = refl
length-copy_padded (suc n) [] = ap suc (length-copy_padded n [])
length-copy_padded (suc n) (b ∷ bs) = ap suc (length-copy_padded n bs)

until_zero-copy_padded :
    (n : ℕ) (bs : Bytes)
    → length bs ≤ n
    → All IsNameByte bs
    → until_zero (copy_padded n (map (λ c. c % 256) bs)) ≡ bs
until_zero-copy_padded zero [] h a = refl
until_zero-copy_padded zero (b ∷ bs) h a = absurd (omega arith)
until_zero-copy_padded (suc n) [] h a = refl
until_zero-copy_padded (suc n) (b ∷ bs) h a =
    ground (arith, until_zero-copy_padded n bs (omega arith) a.1)

stored_dotted :
    (a b c d : ℕ)
    → a < 256
    → b < 256
    → c < 256
    → d < 256
    → stored_segments 10 4 (split_on b'.' (dotted a b c d)) ≡ a ∷ b ∷ c ∷ d ∷ []
unfolding stored_segments
stored_dotted a b c d ha hb hc hd = ground (
  arith,
  split_dotted a b c d,
  byte_of-show a ha,
  byte_of-show b hb,
  byte_of-show c hc,
  byte_of-show d hd,
)

hex_digit-ne-colon : (n : ℕ) → n < 16 → (hex_digit n == b':') ≡ false
unfolding hex_digit
hex_digit-ne-colon n h = ground arith

split_mac :
    (b : ℕ) (rest : Text)
    → b < 256
    → split_on b':' (hex_byte b ++ b':' ∷ rest) ≡ hex_byte b ∷ split_on b':' rest
unfolding split_on hex_byte
split_mac b rest h = ground (arith, hex_digit-ne-colon (b / 16), hex_digit-ne-colon (b % 16))

split_mac_last : (b : ℕ) → b < 256 → split_on b':' (hex_byte b) ≡ hex_byte b ∷ []
unfolding split_on hex_byte
split_mac_last b h = ground (arith, hex_digit-ne-colon (b / 16), hex_digit-ne-colon (b % 16))

stored_mac : (bs : Bytes) → Six IsByte bs → stored_segments 16 6 (split_on b':' (join_mac bs)) ≡ bs
unfolding stored_segments
stored_mac (a ∷ b ∷ c ∷ d ∷ e ∷ f ∷ []) (ha, hb, hc, hd, he, hf) =
    rw
      (
        split_mac a _ ha,
        split_mac b _ hb,
        split_mac c _ hc,
        split_mac d _ hd,
        split_mac e _ he,
        split_mac_last f hf,
      )
      (ground (
        arith,
        byte_of-hex_byte a ha,
        byte_of-hex_byte b hb,
        byte_of-hex_byte c hc,
        byte_of-hex_byte d hd,
        byte_of-hex_byte e he,
        byte_of-hex_byte f hf,
      ))
stored_mac _ h = elim h [ ]

padded_serial : (bs : Bytes) → Six IsByte bs → copy_padded 6 (from_hex (to_hex bs)) ≡ bs
padded_serial (a ∷ b ∷ c ∷ d ∷ e ∷ f ∷ []) (ha, hb, hc, hd, he, hf) =
    rw (from_hex-to_hex (a ∷ b ∷ c ∷ d ∷ e ∷ f ∷ []) (ha, (hb, (hc, (hd, (he, (hf, tt)))))))
padded_serial _ h = elim h [ ]

pub info_bytes : (d : DeviceInfoDib) → IsWireInfo d → Bytes
info_bytes d v =
    dib_device_info_len
    ∷ dib_type_device_info
    ∷ d.knx_medium
    ∷ d.device_status
    ∷ d.individual_address.raw / 256
    ∷ d.individual_address.raw % 256
    ∷ d.project_installation / 256
    ∷ d.project_installation % 256
    ∷ (v.serial_bytes
        ++ (v.a
            ∷ v.b
            ∷ v.c
            ∷ v.e
            ∷ (v.mac_bytes ++ copy_padded 30 (map (λ c. c % 256) d.friendly_name))))

length-Six : (P : ℕ → Type 0) (bs : Bytes) → Six P bs → length bs ≡ 6
length-Six P (a ∷ b ∷ c ∷ d ∷ e ∷ f ∷ []) h = refl
length-Six P _ h = elim h [ ]

pub length-info_bytes :
    (d : DeviceInfoDib) (v : IsWireInfo d) → length (info_bytes d v) ≡ dib_device_info_len
unfolding info_bytes
length-info_bytes d v =
    let name = copy_padded 30 (map (λ c. c % 256) d.friendly_name) in
    ground (
      arith,
      length-append v.serial_bytes (v.a ∷ v.b ∷ v.c ∷ v.e ∷ (v.mac_bytes ++ name)),
      length-append v.mac_bytes name,
      length-copy_padded 30 (map (λ c. c % 256) d.friendly_name),
      length-Six IsByte v.serial_bytes v.serial_six,
      length-Six IsByte v.mac_bytes v.mac_six,
    )

pub encode_written :
    (d : DeviceInfoDib) (v : IsWireInfo d) → encode_device_info d ≡ ok (info_bytes d v)
unfolding encode_device_info info_bytes Individual.to_knx
encode_written d v = ground (
  arith,
  v.medium_fits,
  v.status_fits,
  v.address_fits,
  v.project_fits,
  v.serial_text,
  v.group_text,
  v.mac_text,
  padded_serial v.serial_bytes v.serial_six,
  stored_dotted v.a v.b v.c v.e v.group_fits.0 v.group_fits.1 v.group_fits.2 v.group_fits.3,
  stored_mac v.mac_bytes v.mac_six,
)

parse_bytes :
    (m s hi lo phi plo a b c e : ℕ) (serial mac name : Bytes)
    → Six IsByte serial
    → Six IsByte mac
    → length name ≡ 30
    → parse_device_info (
        dib_device_info_len
        ∷ dib_type_device_info
        ∷ m
        ∷ s
        ∷ hi
        ∷ lo
        ∷ phi
        ∷ plo
        ∷ (serial ++ (a ∷ b ∷ c ∷ e ∷ (mac ++ name))))
      ≡ (do
        address ← Individual.from_knx (hi ∷ lo ∷ [])
        ok (record {
          knx_medium = m;
          device_status = s;
          individual_address = address;
          project_installation = phi * 256 + plo;
          serial = to_hex serial;
          multicast_address = dotted a b c e;
          mac_address = join_mac mac;
          friendly_name = until_zero name;
        }))
unfolding parse_device_info Individual.from_knx bytes_to_ipv4 read_uint16_be of_number
parse_bytes m s hi lo phi plo a b c e (s0 ∷ s1 ∷ s2 ∷ s3 ∷ s4 ∷ s5 ∷ [])
      (m0 ∷ m1 ∷ m2 ∷ m3 ∷ m4 ∷ m5 ∷ []) name hs hm h =
    ground (arith, h, take-all 30 name)
parse_bytes m s hi lo phi plo a b c e (s0 ∷ s1 ∷ s2 ∷ s3 ∷ s4 ∷ s5 ∷ []) _ name hs hm h =
    elim hm [ ]
parse_bytes m s hi lo phi plo a b c e _ mac name hs hm h = elim hs [ ]

pub parse-encode_info :
    (d : DeviceInfoDib) (v : IsWireInfo d) → parse_device_info (info_bytes d v) ≡ ok d
unfolding info_bytes Individual.from_knx read_uint16_be of_number
parse-encode_info d v =
    let name = copy_padded 30 (map (λ c. c % 256) d.friendly_name) in
    ground (
      arith,
      parse_bytes d.knx_medium d.device_status (d.individual_address.raw / 256)
          (d.individual_address.raw % 256) (d.project_installation / 256)
          (d.project_installation % 256) v.a v.b v.c v.e v.serial_bytes v.mac_bytes name
          v.serial_six v.mac_six (length-copy_padded 30 (map (λ c. c % 256) d.friendly_name)),
      until_zero-copy_padded 30 d.friendly_name v.name_fits v.name_bytes,
      v.address_fits,
      v.project_fits,
      v.serial_text,
      v.group_text,
      v.mac_text,
    )

pub info_bytes-front :
    (d : DeviceInfoDib) (v : IsWireInfo d) (rest : Bytes)
    → (byte_at (info_bytes d v ++ rest) 0 ≡ dib_device_info_len)
      × (byte_at (info_bytes d v ++ rest) 1 ≡ dib_type_device_info)
unfolding info_bytes
info_bytes-front d v rest = (refl, refl)
