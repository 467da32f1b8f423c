-- ===== src/Storage/Accounts/Slots.antt =====
-- The slots of an account under the two loops of `put_evm_account`.
use mathlib.Core.Path.{subst}
use blq_node.Base.{
  ℕ, ◌≡◌, refl, sym, ap, ◌∙◌, Bool, true, false, if◌then◌else◌, List, [], ◌∷◌, Option, none, some,
  arith, All, Pairwise, ok, Bool-cases, inl, inr, >>=-eq-ok, ok_injective,
}
use blq_node.Base.Bytes.{bytes_eq, bytes_eq_iff, bytes_eq_sym, bytes_eq_refl}
use blq_node.Base.Prefixes.{bytes_eq-append}
use blq_node.Base.Assoc.{lookup}
use blq_node.Externals.{IsHash}
use blq_node.Database.{Hex, Sled}
use blq_node.Primitives.{Hash256, Address, hash_zero}
use blq_node.Storage.Keys.{storage_key, address_from_storage_key}
use blq_node.Storage.Keys.Separation.{encode_eq}
use blq_node.Storage.Accounts.{put_slot, put_slots, clear_slots, has_slot, existing_keys, keep}

-- The slots of a `BTreeMap` are distinct.
abbrev pub Distinct : List (Hash256 × Hash256) → Type 0
Distinct storage = Pairwise (λ e f. bytes_eq e.0 f.0 ≡ false) storage

lookup_absent :
    (slot : List ℕ) (storage : List (Hash256 × Hash256))
    → All (λ f. bytes_eq slot f.0 ≡ false) storage
    → lookup slot storage ≡ none
unfolding lookup
lookup_absent slot [] h = refl
lookup_absent slot ((s, v) ∷ storage) h =
    rw (bytes_eq_sym s slot, h.0) (lookup_absent slot storage h.1)

-- What is stored for a slot's value: nothing for zero.
abbrev pub stored : Hash256 → Option (List ℕ)
stored value = if bytes_eq value hash_zero then none else some value

-- What is stored for a slot after a write, where there is one.
abbrev pub slot_or : Option Hash256 → Option (List ℕ) → Option (List ℕ)
slot_or none old = old
slot_or (some value) old = stored value

module _ ⦃hex : Hex⦄ where
  pub storage_key_eq :
      (address s t : List ℕ)
      → IsHash s
      → IsHash t
      → bytes_eq (storage_key address s) (storage_key address t) ≡ bytes_eq s t
  unfolding storage_key bytes_eq
  storage_key_eq address s t h k =
      bytes_eq-append (hex.encode address) (58 ∷ hex.encode s) (58 ∷ hex.encode t)
      ∙ encode_eq s t h.1 k.1

  -- An entry that stands for a slot of the account.
  abbrev pub IsSlotOf : Address → List ℕ × Hash256 → Type 0
  IsSlotOf address e = address_from_storage_key e.0 ≡ ok (address, e.1)

  keep-IsSlotOf :
      (address key : List ℕ) (at : Address × Hash256) (found : List (List ℕ × Hash256))
      → address_from_storage_key key ≡ ok at
      → All (IsSlotOf address) found
      → All (IsSlotOf address) (keep address key at found)
  unfolding keep
  keep-IsSlotOf address key at found p all = elim (Bool-cases (bytes_eq at.0 address)) [
    | inl own ↦
        let same : at.0 ≡ address = (bytes_eq_iff at.0 address).0 own in
        rw own (subst (λ a. address_from_storage_key key ≡ ok (a, at.1)) same p, all)
    | inr other ↦ rw other all
  ]

  slot_of_key :
      (address j key s : List ℕ) (at : Address × Hash256)
      → key ≡ j
      → address_from_storage_key key ≡ ok at
      → address_from_storage_key j ≡ ok (address, s)
      → at.1 ≡ s
  slot_of_key address j key s at same p e =
      ap (λ x. x.1) (ok_injective (sym p ∙ ap address_from_storage_key same ∙ e))

  lookup-keep :
      (address j key s : List ℕ) (at : Address × Hash256) (found : List (List ℕ × Hash256))
      → lookup j found ≡ some s
      → address_from_storage_key key ≡ ok at
      → address_from_storage_key j ≡ ok (address, s)
      → lookup j (keep address key at found) ≡ some s
  unfolding keep lookup
  lookup-keep address j key s at found l p e = elim (Bool-cases (bytes_eq at.0 address)) [
    | inl own ↦ rw own (elim (Bool-cases (bytes_eq key j)) [
      | inl here ↦
          rw here (ap some (slot_of_key address j key s at ((bytes_eq_iff key j).0 here) p e))
      | inr there ↦ rw there l
    ])
    | inr other ↦ rw other l
  ]

  keep_here :
      (address j s : List ℕ) (at : Address × Hash256) (found : List (List ℕ × Hash256))
      → address_from_storage_key j ≡ ok at
      → address_from_storage_key j ≡ ok (address, s)
      → lookup j (keep address j at found) ≡ some s
  unfolding keep lookup
  keep_here address j s at found p e =
      let same : at ≡ (address, s) = ok_injective (sym p ∙ e) in
      let own : bytes_eq at.0 address ≡ true = (bytes_eq_iff at.0 address).1 (ap (λ x. x.0) same) in
      rw (own, bytes_eq_refl j) (ap (λ x. some x.1) same)

  -- What `existing_keys` collects is the account's, each key with its slot.
  pub existing_keys-IsSlotOf :
      (address : List ℕ) (entries : List (List ℕ × List ℕ)) (keys : List (List ℕ × Hash256))
      → existing_keys address entries ≡ ok keys
      → All (IsSlotOf address) keys
  unfolding existing_keys
  existing_keys-IsSlotOf address [] keys h = subst (All (IsSlotOf address)) (ok_injective h) tt
  existing_keys-IsSlotOf address (entry ∷ entries) keys h =
      let (at, p, g) = >>=-eq-ok (address_from_storage_key entry.0) _ h in
      let (found, q, last) = >>=-eq-ok (existing_keys address entries) _ g in
      subst (All (IsSlotOf address)) (ok_injective last)
        (keep-IsSlotOf address entry.0 at found p (existing_keys-IsSlotOf address entries found q))

  pub existing_keys_complete :
      (address j v s : List ℕ) (entries : List (List ℕ × List ℕ)) (keys : List (List ℕ × Hash256))
      → existing_keys address entries ≡ ok keys
      → lookup j entries ≡ some v
      → address_from_storage_key j ≡ ok (address, s)
      → lookup j keys ≡ some s
  unfolding existing_keys lookup
  existing_keys_complete address j v s [] keys h l e = cc
  existing_keys_complete address j v s (entry ∷ entries) keys h l e =
      let (at, p, g) = >>=-eq-ok (address_from_storage_key entry.0) _ h in
      let (found, q, last) = >>=-eq-ok (existing_keys address entries) _ g in
      subst (λ ks. lookup j ks ≡ some s) (ok_injective last)
        (elim (Bool-cases (bytes_eq entry.0 j)) [
          | inl here ↦
              let same : entry.0 ≡ j = (bytes_eq_iff entry.0 j).0 here in
              subst (λ k. lookup j (keep address k at found) ≡ some s) (sym same)
                (keep_here address j s at found
                  (subst (λ k. address_from_storage_key k ≡ ok at) same p) e)
          | inr there ↦
              lookup-keep address j entry.0 s at found
                (existing_keys_complete address j v s entries found q (rw there at l) e) p e
        ])

module _ {Db : Type 0} ⦃sled : Sled Db⦄ ⦃hex : Hex⦄ where
  get-put_slot :
      (j address slot value : List ℕ) (d : Db)
      → sled.get j (put_slot address slot value d)
        ≡ (if bytes_eq (storage_key address slot) j then stored value else sled.get j d)
  unfolding put_slot
  get-put_slot j address slot value d = ground (
    arith,
    sled.get-insert j (storage_key address slot) value d,
    sled.get-remove j (storage_key address slot) d,
  )

  get-clear_slot :
      (j k : List ℕ) (b : Bool) (d : Db)
      → sled.get j (if b then d else sled.remove k d)
        ≡ (if bytes_eq k j then (if b then sled.get j d else none) else sled.get j d)
  get-clear_slot j k b d = ground (arith, sled.get-remove j k d)

  pub clear_slots-none :
      (j : List ℕ) (keys : List (List ℕ × Hash256)) (storage : List (Hash256 × Hash256)) (d : Db)
      → sled.get j d ≡ none
      → sled.get j (clear_slots keys storage d) ≡ none
  unfolding clear_slots
  clear_slots-none j [] storage d h = h
  clear_slots-none j (e ∷ keys) storage d h =
      clear_slots-none j keys storage _
        (ground (arith, get-clear_slot j e.0 (has_slot e.1 storage) d))

  pub clear_slots_apart :
      (j : List ℕ) (keys : List (List ℕ × Hash256)) (storage : List (Hash256 × Hash256)) (d : Db)
      → All (λ e. bytes_eq e.0 j ≡ false) keys
      → sled.get j (clear_slots keys storage d) ≡ sled.get j d
  unfolding clear_slots
  clear_slots_apart j [] storage d h = refl
  clear_slots_apart j (e ∷ keys) storage d h =
      clear_slots_apart j keys storage _ h.1
      ∙ get-clear_slot j e.0 (has_slot e.1 storage) d
      ∙ rw h.0 refl

  -- A slot that the new storage does not name is gone.
  pub clear_slots_gone :
      (j s : List ℕ) (keys : List (List ℕ × Hash256)) (storage : List (Hash256 × Hash256)) (d : Db)
      → lookup j keys ≡ some s
      → has_slot s storage ≡ false
      → sled.get j (clear_slots keys storage d) ≡ none
  unfolding clear_slots lookup
  clear_slots_gone j s [] storage d h k = cc
  clear_slots_gone j s (e ∷ keys) storage d h k = elim (Bool-cases (bytes_eq e.0 j)) [
    | inl here ↦
        let same : e.1 ≡ s = (let f : some e.1 ≡ some s = rw here at h in cc) in
        let open_slot : has_slot e.1 storage ≡ false = rw same k in
        clear_slots-none j keys storage _
          (get-clear_slot j e.0 (has_slot e.1 storage) d ∙ rw (here, open_slot) refl)
    | inr there ↦ clear_slots_gone j s keys storage _ (rw there at h) k
  ]

  pub put_slots_apart :
      (j address : List ℕ) (storage : List (Hash256 × Hash256)) (d : Db)
      → All (λ e. bytes_eq (storage_key address e.0) j ≡ false) storage
      → sled.get j (put_slots address storage d) ≡ sled.get j d
  unfolding put_slots
  put_slots_apart j address [] d h = refl
  put_slots_apart j address ((slot, value) ∷ storage) d h =
      put_slots_apart j address storage _ h.1 ∙ get-put_slot j address slot value d ∙ rw h.0 refl

  pub get-put_slots :
      (address s : List ℕ) (storage : List (Hash256 × Hash256)) (d : Db)
      → IsHash s
      → All (λ e. IsHash e.0) storage
      → Distinct storage
      → sled.get (storage_key address s) (put_slots address storage d)
        ≡ slot_or (lookup s storage) (sled.get (storage_key address s) d)
  unfolding put_slots lookup
  get-put_slots address s [] d h all apart = refl
  get-put_slots address s ((slot, value) ∷ storage) d h all apart =
      let step = get-put_slot (storage_key address s) address slot value d in
      let test = storage_key_eq address slot s all.0 h in
      let ih = get-put_slots address s storage (put_slot address slot value d) h all.1 apart.1 in
      elim (Bool-cases (bytes_eq slot s)) [
        | inl here ↦
            let same : slot ≡ s = (bytes_eq_iff slot s).0 here in
            let gone : lookup s storage ≡ none =
              lookup_absent s storage
                (subst (λ x. All (λ f. bytes_eq x f.0 ≡ false) storage) same apart.0) in
            rw here ((rw gone at ih) ∙ step ∙ rw (test, here) refl)
        | inr there ↦
            let skip : sled.get (storage_key address s) (put_slot address slot value d)
                ≡ sled.get (storage_key address s) d =
              step ∙ rw (test, there) refl in
            rw there (ih ∙ ap (slot_or (lookup s storage)) skip)
      ]
