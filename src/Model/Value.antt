-- ===== src/Model/Value.antt =====
-- Go's `any`, as encoding/json and the format readers fill it. A float is its IEEE 754 bit pattern,
-- and a []byte is the text of its bytes.
use xtable_go.Prelude.{ℕ, String, Bool, ◌/◌, ◌%◌, ◌^◌, ◌==◌}
use xtable_go.Prelude.Int.{ℤ}

mutual
  pub data Value : Type 0 where
    null : Value
    text : String → Value
    bool : Bool → Value
    int : ℤ → Value
    float32 float64 : ℕ → Value
    bytes : String → Value
    object : Members → Value

  -- map[string]any
  pub data Members : Type 0 where
    end : Members
    member : String → Value → Members → Members

-- math.IsNaN or math.IsInf: all bits of the exponent are set.
abbrev pub is_special32 : ℕ → Bool
is_special32 bits = bits / 2 ^ 23 % 2 ^ 8 == 255

abbrev pub is_special64 : ℕ → Bool
is_special64 bits = bits / 2 ^ 52 % 2 ^ 11 == 2047
