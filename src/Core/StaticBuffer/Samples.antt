-- ===== src/Core/StaticBuffer/Samples.antt =====
-- Runs of a ring of four cells.
use beast_asio_standalone.Prelude.{◌≡◌, refl, some, [], ◌∷◌, arith, get_or}
use beast_asio_standalone.Core.StaticBuffer.{StaticBuffer, contents, prepare, consume, assign}
use beast_asio_standalone.Core.StaticBuffer.Queue.{
  IsRing, Reserves, prepare-Reserves, Consumed, consume-Consumed, Holds, assign-Holds,
}

-- the last cell and the first are in use, and two are prepared
abbrev turned : StaticBuffer
turned = record {
  mem = λ a. get_or (1 ∷ 2 ∷ 3 ∷ 4 ∷ []) a 0;
  capacity = 4;
  in_off = 3;
  in_size = 2;
  out_size = 2;
}

turned-IsRing : IsRing turned
turned-IsRing = record { begins = omega arith; fits = omega arith }

turned_bytes : contents turned ≡ 4 ∷ 1 ∷ []
unfolding contents
turned_bytes = refl

consume-Consumed_example : Consumed 1 turned (consume 1 turned)
consume-Consumed_example = consume-Consumed 1 turned turned-IsRing

prepare-Reserves_example : Reserves 3 turned (prepare 3 turned)
prepare-Reserves_example = prepare-Reserves 3 turned turned-IsRing

assign-Holds_example :
    (c : StaticBuffer) × (assign turned turned ≡ some c) × Holds (contents turned) c
assign-Holds_example = assign-Holds turned turned turned-IsRing turned-IsRing refl
