-- ===== src/Klibc/Map.antt =====
-- src/klibc/map.hpp: a hash table of chains. A chain of `map_entry` is the list of its keys and
-- values; the destructor is not modelled. `hash` and `same`, the comparison of keys, depend on the
-- type of the keys.
pub mod Laws
pub mod Runs
mod Tests
use toystar.Prelude.{
  ℕ, zero, suc, ◌+◌, ◌-◌, ◌*◌, ◌/◌, ◌%◌, ◌^◌, bit_and, Bool, true, false, Option, none, some, List,
  [], ◌∷◌, ◌==◌, ltb, if◌then◌else◌, length, get_elem?, set,
}
use toystar.Prelude.Outcome.{Outcome, done, fault, ◌>>=◌}
use toystar.Prelude.Word.{u64_mod}
use toystar.Klibc.Strings.{CString, char_value}

-- The loop of `hash(size_t)` from byte `i` on, with the rounds that are left.
unfoldable pub hash_bytes : ℕ → ℕ → ℕ → ℕ → ℕ
hash_bytes zero i hash key = hash
hash_bytes (suc n) i hash key =
    hash_bytes n (i + 1) ((hash * 32 % u64_mod + hash + key / 2 ^ (i * 8) % 256) % u64_mod) key

unfoldable pub hash_number : ℕ → ℕ → ℕ
unfolding hash_bytes
hash_number key capacity = bit_and (hash_bytes 8 0 5381 key) capacity

-- The loop of `hash(const char*)`.
unfoldable pub hash_chars : ℕ → CString → ℕ
hash_chars hash [] = hash
hash_chars hash (c ∷ s) =
    let rest = hash_chars ((hash * 32 % u64_mod + hash + char_value c) % u64_mod) s in
    if c == 0 then hash else rest

unfoldable pub hash_text : CString → ℕ → ℕ
unfolding hash_chars
hash_text key capacity = hash_chars 5381 key % capacity

pub record Map {ℓ κ} (K : Type ℓ) (T : Type κ) : Type (ℓ ⊔ κ) where
  pub m_capacity : ℕ
  pub m_size : ℕ
  pub m_data : List (List (K × T))

module _ {ℓ κ} {K : Type ℓ} {T : Type κ} where
  -- `for (i = 0; i < m_capacity; i++) m_data[i] = nullptr`
  unfoldable pub empty_chains : ℕ → List (List (K × T))
  empty_chains zero = []
  empty_chains (suc n) = [] ∷ empty_chains n

  unfoldable pub map : Map K T
  unfolding empty_chains
  map = record { m_size = 0; m_capacity = 10; m_data = empty_chains 10 }

  -- `m_data[index]`
  unfoldable pub chain_at : ℕ → Map K T → Outcome (List (K × T))
  chain_at index m = elim (get_elem? m.m_data index) [ none ↦ fault | some chain ↦ done chain ]

  -- The end of `insert`. Where the table grows, `memcpy` reads behind the old one, if that is shorter.
  unfoldable pub grow : Map K T → Outcome (Map K T)
  grow m =
      if ltb m.m_capacity (m.m_size * (m.m_size / 2))
      then (if ltb (length m.m_data) (m.m_capacity + m.m_capacity / 2)
          then fault
          else done (record m { m_capacity = m.m_capacity + m.m_capacity / 2 }))
      else done m

  module _ (same : K → K → Bool) where
    -- The loop of `erase`: the chain without the first entry of that key.
    unfoldable pub erase_chain : K → List (K × T) → Option (List (K × T))
    erase_chain key [] = none
    erase_chain key ((k, v) ∷ chain) =
        let rest = erase_chain key chain in
        if same k key then some chain else elim rest [ none ↦ none | some r ↦ some ((k, v) ∷ r) ]

    unfoldable pub find_chain : K → List (K × T) → Option T
    find_chain key [] = none
    find_chain key ((k, v) ∷ chain) =
        let rest = find_chain key chain in if same k key then some v else rest

  module _ (hash : K → ℕ → ℕ) (same : K → K → Bool) where
    unfoldable pub insert : K → T → Map K T → Outcome (Map K T)
    unfolding chain_at grow
    insert key value m = do
      let index = hash key m.m_capacity
      chain ← chain_at index m
      grow (record m { m_data = set m.m_data index ((key, value) ∷ chain); m_size = m.m_size + 1 })

    unfoldable pub erase : K → Map K T → Outcome (Bool × Map K T)
    unfolding chain_at erase_chain
    erase key m = do
      let index = hash key m.m_capacity
      chain ← chain_at index m
      elim (erase_chain same key chain) [
        | none ↦ done (false, m)
        | some rest ↦ done (
          true,
          record m {
            m_data = set m.m_data index rest;
            m_size = (m.m_size + u64_mod - 1) % u64_mod;
          },
        )
      ]

    unfoldable pub find : K → Map K T → Outcome (Option T)
    unfolding chain_at find_chain
    find key m = do chain ← chain_at (hash key m.m_capacity) m; done (find_chain same key chain)
