-- ===== src/Core/FlatBuffer/Samples.antt =====
-- Runs of a flat buffer.
use beast_asio_standalone.Prelude.{ℕ, zero, suc, length, ◌≡◌, refl, some, List, [], ◌∷◌, arith}
use beast_asio_standalone.Core.FlatBuffer.{
  FlatBuffer, Allocator, prepare, shrink_to_fit, copy, assign, move, swap,
}
use beast_asio_standalone.Core.FlatBuffer.Queue.{
  IsOrdered, Prepares, prepare-Prepares, Shrunk, shrink_to_fit-Shrunk,
}
use beast_asio_standalone.Core.FlatBuffer.Script.{Operation, run, queue_run, Agrees, run-Agrees}
use beast_asio_standalone.Core.FlatBuffer.Copies.{Released, Succeeds, copy-Holds, move-swap}

abbrev zeros : ℕ → List ℕ
zeros zero = []
zeros (suc n) = 0 ∷ zeros n

length-zeros : (n : ℕ) → length (zeros n) ≡ n
length-zeros zero = refl
length-zeros (suc n) = omega (arith, length-zeros n)

abbrev zeroing : Allocator
zeroing = record { allocate = zeros; allocate_lem = length-zeros }

-- four cells, of which the second is in use and the third is prepared
abbrev busy : FlatBuffer
busy = record { mem = 1 ∷ 2 ∷ 3 ∷ 4 ∷ []; in_off = 1; out_off = 2; last_off = 3; max_size = 10 }

busy-IsOrdered : IsOrdered busy
busy-IsOrdered = record {
  in_out = omega arith;
  out_last = omega arith;
  last_end = omega arith;
  in_limit = omega arith;
  limit = omega arith;
}

abbrev script : List Operation
script =
    Operation.write 3 (5 ∷ 6 ∷ 7 ∷ [])
    ∷ Operation.consume_front 2
    ∷ Operation.shrink
    ∷ Operation.write 4 (8 ∷ [])
    ∷ []

-- the block is moved, then grown
queue_script : queue_run 10 script (2 ∷ []) ≡ some (6 ∷ 7 ∷ 8 ∷ [])
queue_script = refl

run-Agrees_example : Agrees 10 (run zeroing script busy) (queue_run 10 script (2 ∷ []))
run-Agrees_example = run-Agrees zeroing script busy busy-IsOrdered

prepare-Prepares_example : Prepares 3 busy (prepare zeroing 3 busy)
prepare-Prepares_example = prepare-Prepares zeroing 3 busy busy-IsOrdered

shrink_to_fit-Shrunk_example : Shrunk busy (shrink_to_fit zeroing busy)
shrink_to_fit-Shrunk_example = shrink_to_fit-Shrunk zeroing busy busy-IsOrdered

copy-Holds_example :
    Succeeds (2 ∷ []) (copy zeroing busy) × Succeeds (2 ∷ []) (assign zeroing busy busy)
copy-Holds_example = copy-Holds zeroing busy busy busy-IsOrdered busy-IsOrdered

move-swap_example :
    Released (2 ∷ []) 10 4 (move busy).0
    × Released [] 10 0 (move busy).1
    × Released (2 ∷ []) 10 4 (swap busy busy).0
    × Released (2 ∷ []) 10 4 (swap busy busy).1
move-swap_example = move-swap busy busy busy-IsOrdered busy-IsOrdered
