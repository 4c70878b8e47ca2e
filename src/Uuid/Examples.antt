-- ===== src/Uuid/Examples.antt =====
-- Sixteen bytes, and their ids.
use unified_service_schedule.Common.{◌≡◌, refl, some, arith, List, ℕ}
use unified_service_schedule.Uuid.{Block, bytes, new_uuid, new_request_id}
use unified_service_schedule.Uuid.Parse.{AreBytes, parse, IsVersion4, ids_roundtrip}

abbrev drawn : Block
drawn = record {
  b0 = 0;
  b1 = 1;
  b2 = 171;
  b3 = 255;
  b4 = 16;
  b5 = 32;
  b6 = 255;
  b7 = 64;
  b8 = 255;
  b9 = 80;
  b10 = 96;
  b11 = 112;
  b12 = 128;
  b13 = 144;
  b14 = 160;
  b15 = 176;
}

drawn-id : new_uuid drawn ≡ "0001abff-1020-4f40-bf50-60708090a0b0"
unfolding new_uuid
drawn-id = refl

drawn-request_id : new_request_id drawn ≡ "0001abff-1020-ff40-ff50-60708090a0b0"
unfolding new_request_id
drawn-request_id = refl

drawn-AreBytes : AreBytes (bytes drawn)
drawn-AreBytes = ground arith

ids_roundtrip_example :
    ((bs : List ℕ) × (parse (new_uuid drawn) ≡ some bs) × IsVersion4 drawn bs)
    × (parse (new_request_id drawn) ≡ some (bytes drawn))
ids_roundtrip_example = ids_roundtrip drawn drawn-AreBytes
