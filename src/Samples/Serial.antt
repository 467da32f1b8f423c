-- ===== src/Samples/Serial.antt =====
-- Writing values one after the other and reading them back, for the texts of stored types.
use blq_node.Base.{
  ℕ, zero, suc, ◌≡◌, refl, ap, ◌∙◌, Bool, true, false, List, [], ◌∷◌, Option, none, some, length,
}
use blq_node.Database.{Codec}

-- A value before others, and reading it off again.
pub record Serial (A : Type 0) : Type 0 where
  pub write : A → List ℕ → List ℕ
  pub read : List ℕ → Option (A × List ℕ)
  pub read-write : (a : A) (rest : List ℕ) → read (write a rest) ≡ some (a, rest)

abbrev pub then_read : {A B : Type 0} → Option (A × List ℕ) → (A → List ℕ → Option B) → Option B
then_read none next = none
then_read (some (a, rest)) next = next a rest

abbrev pub read_number : List ℕ → Option (ℕ × List ℕ)
read_number [] = none
read_number (n ∷ rest) = some (n, rest)

abbrev pub number : Serial ℕ
number = record { write = λ n rest. n ∷ rest; read = read_number; read-write = λ n rest. refl }

module _ {A B : Type 0} where
  infixr 4 ◌⊗◌
  abbrev pub ◌⊗◌ : Serial A → Serial B → Serial (A × B)
  x ⊗ y = record {
    write = λ p rest. x.write p.0 (y.write p.1 rest);
    read = λ bs.
        then_read (x.read bs) (λ a more. then_read (y.read more) (λ b rest. some ((a, b), rest)));
    read-write = λ p rest.
        ap (λ o. then_read o (λ a more. then_read (y.read more) (λ b rest. some ((a, b), rest))))
          (x.read-write p.0 _)
        ∙ ap (λ o. then_read o (λ b rest. some ((p.0, b), rest))) (y.read-write p.1 rest);
  }

  -- A type by way of another.
  abbrev pub via : (f : A → B) (g : B → A) → ((a : A) → g (f a) ≡ a) → Serial B → Serial A
  via f g same y = record {
    write = λ a rest. y.write (f a) rest;
    read = λ bs. then_read (y.read bs) (λ b rest. some (g b, rest));
    read-write = λ a rest.
        ap (λ o. then_read o (λ b rest. some (g b, rest))) (y.read-write (f a) rest)
        ∙ ap (λ c. some (c, rest)) (same a);
  }

module _ {A : Type 0} (x : Serial A) where
  abbrev pub write_all : List A → List ℕ → List ℕ
  write_all [] rest = rest
  write_all (a ∷ xs) rest = x.write a (write_all xs rest)

  abbrev pub read_all : ℕ → List ℕ → Option (List A × List ℕ)
  read_all zero bs = some ([], bs)
  read_all (suc n) bs =
      then_read (x.read bs) (λ a more. then_read (read_all n more) (λ xs rest. some (a ∷ xs, rest)))

  abbrev pub read_all-write_all :
      (xs : List A) (rest : List ℕ) → read_all (length xs) (write_all xs rest) ≡ some (xs, rest)
  read_all-write_all [] rest = refl
  read_all-write_all (a ∷ xs) rest =
      ap
        (λ o.
          then_read o
            (λ a more. then_read (read_all (length xs) more) (λ xs rest. some (a ∷ xs, rest))))
        (x.read-write a (write_all xs rest))
      ∙ ap (λ o. then_read o (λ xs rest. some (a ∷ xs, rest))) (read_all-write_all xs rest)

  abbrev pub counted : List ℕ → Option (List A × List ℕ)
  counted [] = none
  counted (n ∷ bs) = read_all n bs

  abbrev pub sequence : Serial (List A)
  sequence = record {
    write = λ xs rest. length xs ∷ write_all xs rest;
    read = counted;
    read-write = read_all-write_all;
  }

  abbrev pub to_list : Option A → List A
  to_list none = []
  to_list (some a) = a ∷ []

  abbrev pub of_list : List A → Option A
  of_list [] = none
  of_list (a ∷ xs) = some a

  abbrev pub optional_lem : (o : Option A) → of_list (to_list o) ≡ o
  optional_lem none = refl
  optional_lem (some a) = refl

  abbrev pub optional : Serial (Option A)
  optional = via to_list of_list optional_lem sequence

  abbrev pub read_first : Option (A × List ℕ) → Option A
  read_first none = none
  read_first (some (a, rest)) = some a

  abbrev pub codec : Codec A
  codec = record {
    to_vec = λ a. x.write a [];
    from_slice = λ bs. read_first (x.read bs);
    from_slice-to_vec = λ a. ap read_first (x.read-write a []);
  }

abbrev pub bit : Bool → ℕ
bit true = 1
bit false = 0

abbrev pub of_bit : ℕ → Bool
of_bit zero = false
of_bit (suc n) = true

abbrev pub bit_lem : (b : Bool) → of_bit (bit b) ≡ b
bit_lem true = refl
bit_lem false = refl

abbrev pub boolean : Serial Bool
boolean = via bit of_bit bit_lem number

abbrev pub text : Serial (List ℕ)
text = sequence number
