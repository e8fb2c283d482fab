-- ===== src/Prelude/Fallible.antt =====
-- `do` blocks over a `Result` that reads and writes nothing.
use fsamp_processor.Prelude.Actions.{Result, ok, raised}

infixl 5 ◌>>=◌
abbrev pub ◌>>=◌ {ℓ κ ι} :
    {E : Type ι} {A : Type ℓ} {B : Type κ} → Result E A → (A → Result E B) → Result E B
raised error >>= next = raised error
ok value >>= next = next value
