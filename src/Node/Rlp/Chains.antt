-- ===== src/Node/Rlp/Chains.antt =====
-- The chains of `?` in the decoder: what a result tells of its steps.
use blq_node.Base.{◌≡◌, refl, Bool, true, false, Option, some, none, arith}
use blq_node.Node.Rlp.{guarded, ◌>>=◌}

pub bind_some :
    {A B : Type 0} (o : Option A) (next : A → Option B) {b : B}
    → (o >>= next) ≡ some b
    → (a : A) × (o ≡ some a) × (next a ≡ some b)
bind_some none next h = absurd (ground arith)
bind_some (some a) next h = (a, refl, h)

pub guarded-some :
    {B : Type 0} (c : Bool) (o : Option B) {b : B}
    → guarded c o ≡ some b
    → (c ≡ false) × (o ≡ some b)
guarded-some true o h = absurd (ground arith)
guarded-some false o h = (refl, h)

pub some_injective : {B : Type 0} {a b : B} → some a ≡ some b → a ≡ b
some_injective h = cc

pub bind_same :
    {A B : Type 0} (o : Option A) (f g : A → Option B)
    → ((a : A) → o ≡ some a → f a ≡ g a)
    → (o >>= f) ≡ (o >>= g)
bind_same none f g h = refl
bind_same (some a) f g h = h a refl
