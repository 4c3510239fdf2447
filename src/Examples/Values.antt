-- ===== src/Examples/Values.antt =====
-- Values of datapoint types.
use node_red_contrib_eelectr.Base.{
  refl, ok, ◌≡◌, true, false, none, some, err, conversion_error, ◌⊎◌, [], ◌∷◌,
}
use node_red_contrib_eelectr.Dpt.Codec.{pos, in_range}
use node_red_contrib_eelectr.Dpt.Times.{
  Dpt10Value, dpt10, day_index, day_or, day_name, three_bytes, Dpt19Value, thursday, no_day,
}
use node_red_contrib_eelectr.Dpt.JsNumber.{whole, above, unless_outside}
use node_red_contrib_eelectr.Core.Address.{GroupAddress, long}
use node_red_contrib_eelectr.Core.Apci.{bytes, group_value_write as write_of}
use node_red_contrib_eelectr.Io.Tunnel.Groups.{group_value_write}
use node_red_contrib_eelectr.Dpt.Lossless.{Sent, Written}
use node_red_contrib_eelectr.Dpt.Lossless.Family.{
  main_10, codec, valid, complete, accepts, read_cut, decode-encode,
}

-- A Thursday in summer, with no word about the clock's quality.
abbrev moment : Dpt19Value
moment = record {
  year = whole (pos 2026);
  month = whole (pos 7);
  day = whole (pos 30);
  hour = whole (pos 13);
  minutes = whole (pos 59);
  seconds = whole (pos 0);
  day_of_week = some thursday;
  fault = none;
  working_day = some true;
  working_day_valid = some true;
  summer_time = some true;
  clock_quality = none;
}

-- Half an hour past twelve, as a fraction.
abbrev lunch : Dpt10Value
lunch = record { hour = above 12; minutes = whole (pos 0); seconds = whole (pos 0); day = none }

decode-encode_example :
    ((valid main_10 lunch ≡ true) × Sent (codec main_10) lunch (complete main_10 lunch))
    ⊎ (((valid main_10 lunch ≡ false)
          × (accepts main_10 lunch ≡ true)
          × Written (codec main_10) lunch (read_cut main_10 lunch))
        ⊎ ((valid main_10 lunch ≡ false)
            × (accepts main_10 lunch ≡ false)
            × ((codec main_10).encode lunch ≡ err conversion_error)))
decode-encode_example = decode-encode main_10 lunch

-- It is written and read as twelve o'clock.
lunch_cut :
    (dpt10.encode lunch ≡ ok (bytes (12 ∷ 0 ∷ 0 ∷ [])))
    × (dpt10.decode (bytes (12 ∷ 0 ∷ 0 ∷ []))
        ≡ ok (record lunch { hour = whole (pos 12); day = some no_day }))
unfolding dpt10 unless_outside in_range day_index day_or three_bytes day_name
lunch_cut = (refl, refl)

abbrev clock : GroupAddress
clock = record { raw = 0x0902; style = long }
