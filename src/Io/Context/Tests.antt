-- ===== src/Io/Context/Tests.antt =====
-- Runs of iocontext.c, and the theorems at such runs.
use chaff.Prelude.{ℕ, ◌≡◌, true, none, some, [], ◌==◌, if◌then◌else◌, arith}
use chaff.Prelude.Int.{ℤ, pos}
use chaff.Io.Context.{Context}
use chaff.Io.Context.Lifetime.{clone, delete_reference, delete_reference-clone}

abbrev closes : ℕ → ℤ
closes f = pos 0

-- Descriptor 2 leads to a file at 77, open for reading.
abbrev one_file : Context
one_file = record {
  store = λ f. record { ref_count = 1; off = 10; flags = 1 };
  freed = [];
  files = λ fd. if fd == 2 then some 77 else none;
  descriptor_flags = λ fd. 0;
  next_free_file = 0;
  ref_count = 3;
}

delete_reference-clone_example :
    delete_reference closes (clone one_file) ≡ (record one_file { ref_count = 1 }, true)
delete_reference-clone_example =
    delete_reference-clone closes one_file (λ f o. (omega arith, omega arith))
