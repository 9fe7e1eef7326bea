-- ===== src/Examples/Memories.antt =====
-- A storage in memory after a few calls.
use xtable_go.Prelude.{List, [], ◌∷◌, none}
use xtable_go.Prelude.Int.{pos}
use xtable_go.Io.Memory.{new_memory_storage}
use xtable_go.Io.Memory.Refines.{Call, write, delete, after, held, Holds, after-Holds}

-- one file is written twice, another is written and deleted
abbrev few_calls : List Call
few_calls =
    write (pos 1) "mem://t/a" "1"
    ∷ write (pos 2) "mem://t/b" "2"
    ∷ write (pos 3) "mem://t/a" "3"
    ∷ delete "mem://t/b"
    ∷ []

after-Holds_example :
    Holds (λ p. held p few_calls none) (after few_calls (new_memory_storage (pos 0)))
after-Holds_example = after-Holds few_calls (pos 0)
