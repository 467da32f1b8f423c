-- ===== src/Storage/Snapshot/Loops.antt =====
-- What `account_snapshot` reads is what the store holds for each address.
use mathlib.Core.Path.{subst}
use blq_node.Base.{
  ◌<◌, ◌^◌, ℕ, ◌≡◌, refl, sym, ap, ◌∙◌, if◌then◌else◌, List, [], ◌∷◌, ◌++◌, Option, none, some,
  Bool-cases, inl, inr, All, All-imp, ok, err,
}
use blq_node.Base.Bytes.{bytes_eq, bytes_eq_iff}
use blq_node.Base.Prefixes.{bytes_eq-append}
use blq_node.Base.Assoc.{lookup}
use blq_node.Database.{Hex, Sled}
use blq_node.Primitives.{Address, Bix, IsAddress}
use blq_node.Storage.Keys.{address_from_key, int_from_slice}
use blq_node.Storage.Keys.Separation.{encode_eq, address_of_key}
use blq_node.Storage.Roots.{NativeAccounts}
use blq_node.Storage.Snapshot.{upsert, read_accounts}
use blq_node.Storage.Snapshot.Ascending.{IsMap, or_zero, lookup-upsert, upsert-IsMap}

abbrev pub number_in : ℕ → List ℕ → ℕ
number_in size value = elim (int_from_slice size value) [ ok n ↦ n | err e ↦ 0 ]

-- What an entry of a scan makes of an account.
abbrev pub entered_into :
    ℕ → (ℕ → Bix × ℕ → Bix × ℕ) → Option (List ℕ) → Option (Bix × ℕ) → Option (Bix × ℕ)
entered_into size change none o = o
entered_into size change (some value) o = some (change (number_in size value) (or_zero o))

pub some_same : {x y : List ℕ} → ◌≡◌ {A = Option (List ℕ)} (some x) (some y) → x ≡ y
some_same p = cc

pub lookup-All :
    (k v : List ℕ) (Q : List ℕ → List ℕ → Type 0) (entries : List (List ℕ × List ℕ))
    → All (λ e. Q e.0 e.1) entries
    → lookup k entries ≡ some v
    → Q k v
unfolding lookup
lookup-All k v Q [] h e = absurd (cc)
lookup-All k v Q ((j, w) ∷ entries) h e = elim (Bool-cases (bytes_eq j k)) [
  | inl same ↦
      let value : w ≡ v = some_same (rw same at e) in
      subst (λ y. Q k y) value (subst (λ x. Q x w) ((bytes_eq_iff j k).0 same) h.0)
  | inr other ↦ lookup-All k v Q entries h.1 (rw other at e)
]

-- The same entry once more changes nothing.
collapse :
    (size : ℕ) (change : ℕ → Bix × ℕ → Bix × ℕ)
    → ((n : ℕ) (x : Bix × ℕ) → change n (change n x) ≡ change n x)
    → (v : List ℕ) (n : ℕ) (o : Option (Bix × ℕ)) (rest : Option (List ℕ)) → number_in size v ≡ n
    → ((w : List ℕ) → rest ≡ some w → w ≡ v)
    → entered_into size change rest (some (change n (or_zero o)))
      ≡ entered_into size change (some v) o
collapse size change again v n o none h k = ap (λ t. some (change t (or_zero o))) (sym h)
collapse size change again v n o (some w) h k =
    ap (λ t. some (change (number_in size t) (change n (or_zero o)))) (k w refl)
    ∙ ap (λ t. some (change t (change n (or_zero o)))) h
    ∙ ap some (again n (or_zero o))
    ∙ ap (λ t. some (change t (or_zero o))) (sym h)

module _ ⦃hex : Hex⦄ where
  -- An entry under the key of an address, with a value that can be read.
  pub record IsEntry (p : List ℕ) (size : ℕ) (k v : List ℕ) : Type 0 where
    pub address : Address
    pub is_address : IsAddress address
    pub key : k ≡ p ++ hex.encode address
    pub amount : ℕ
    pub value : int_from_slice size v ≡ ok amount
    pub small : amount < 256 ^ size

module _ {Db : Type 0} ⦃sled : Sled Db⦄ ⦃hex : Hex⦄ where
  abbrev Entry : List ℕ → ℕ → Db → List ℕ → List ℕ → Type 0
  Entry p size d k v = IsEntry p size k v × (sled.get k d ≡ some v)

  module _ (p : List ℕ) (size : ℕ) (change : ℕ → Bix × ℕ → Bix × ℕ)
      (again : (n : ℕ) (x : Bix × ℕ) → change n (change n x) ≡ change n x) (d : Db) where
    first-Entry :
        (k v b : List ℕ) (rest : Option (List ℕ)) (m : NativeAccounts) (e : Entry p size d k v)
        → IsAddress b
        → IsMap m
        → ((w : List ℕ) → rest ≡ some w → sled.get (p ++ hex.encode b) d ≡ some w)
        → entered_into size change rest (lookup b (upsert e.0.address (change e.0.amount) m))
          ≡ entered_into size change
              (if bytes_eq k (p ++ hex.encode b) then some v else rest)
              (lookup b m)
    first-Entry k v b rest m e vb h stored =
        let a = e.0.address in
        let read = lookup-upsert a b (change e.0.amount) m e.0.is_address h in
        let key =
          ap (λ x. bytes_eq x (p ++ hex.encode b)) e.0.key
          ∙ bytes_eq-append p (hex.encode a) (hex.encode b)
          ∙ encode_eq a b e.0.is_address.1 vb.1 in
        let amount : number_in size v ≡ e.0.amount = rw (e.0.value, number_in) refl in
        elim (Bool-cases (bytes_eq a b)) [
          | inl same ↦
              let eq : a ≡ b = (bytes_eq_iff a b).0 same in
              let there : sled.get (p ++ hex.encode b) d ≡ some v =
                ap (λ x. sled.get (p ++ hex.encode x) d) (sym eq)
                ∙ ap (λ x. sled.get x d) (sym e.0.key)
                ∙ e.1 in
              ap (entered_into size change rest) (read ∙ rw same refl)
              ∙ collapse size change again v e.0.amount (lookup a m) rest amount
                  (λ w r. some_same (sym (stored w r) ∙ there))
              ∙ ap (λ x. entered_into size change (some v) (lookup x m)) eq
              ∙ ap (λ c. entered_into size change (if c then some v else rest) (lookup b m))
                  (sym (key ∙ same))
          | inr other ↦
              ap (entered_into size change rest) (read ∙ rw other refl)
              ∙ ap (λ c. entered_into size change (if c then some v else rest) (lookup b m))
                  (sym (key ∙ other))
        ]

    pub read_accounts_lem :
        (entries : List (List ℕ × List ℕ)) (m : NativeAccounts)
        → All (λ e. Entry p size d e.0 e.1) entries
        → IsMap m
        → (m' : NativeAccounts) × (read_accounts p size change entries m ≡ ok m')
          × IsMap m'
          × ((b : Address)
              → IsAddress b
              → lookup b m'
                ≡ entered_into size change (lookup (p ++ hex.encode b) entries) (lookup b m))
    unfolding read_accounts lookup
    read_accounts_lem [] m h v = (m, refl, v, (λ b vb. refl))
    read_accounts_lem ((k, value) ∷ entries) m h v =
        let e = h.0.0 in
        let next = upsert e.address (change e.amount) m in
        let (m', run, map, found) =
          read_accounts_lem entries next h.1
            (upsert-IsMap e.address (change e.amount) m e.is_address v) in
        let key : address_from_key p k ≡ ok e.address =
          ap (address_from_key p) e.key ∙ address_of_key p e.address e.is_address in
        (
          m',
          rw (key, e.value, read_accounts) run,
          map,
          (λ b vb.
              found b vb
              ∙ first-Entry k value b (lookup (p ++ hex.encode b) entries) m h.0 vb v (λ w r.
                lookup-All (p ++ hex.encode b) w (λ x y. sled.get x d ≡ some y) entries
                  (All-imp (λ e q. q.1) entries h.1) r)),
        )
