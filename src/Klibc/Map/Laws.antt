-- ===== src/Klibc/Map/Laws.antt =====
-- src/klibc/map.hpp against a list of the entries, the newest one first.
use toystar.Prelude.{
  ℕ, zero, suc, ◌+◌, ◌-◌, ◌*◌, ◌/◌, ◌%◌, ◌≤◌, ◌<◌, ◌≡◌, ◌≢◌, ◌↔◌, refl, sym, ◌∙◌, ap, Bool, true,
  false, Option, none, some, ◌⊎◌, List, [], ◌∷◌, ◌==◌, ltb, if◌then◌else◌, length, get_elem?, set,
  arith, Bool-cases, inl, inr, length-set, get_elem?-set_self, get_elem?-set_ne,
}
use mathlib.Core.Path.{subst}
use toystar.Prelude.Outcome.{Outcome, done, fault}
use toystar.Prelude.Word.{u64_mod}
use toystar.Klibc.Map.{
  Map, map, empty_chains, chain_at, grow, insert, erase_chain, erase, find_chain, find,
}

-- What the table needs of the keys: equal ones have equal hashes.
pub record IsHash {ℓ} {K : Type ℓ} (hash : K → ℕ → ℕ) (same : K → K → Bool) : Type ℓ where
  pub equal : (k j : K) → same k j ≡ true → hash k 10 ≡ hash j 10

module _ {ℓ κ} {K : Type ℓ} {T : Type κ} (same : K → K → Bool) where
  -- The newest value of a key.
  abbrev pub newest : K → List (K × T) → Option T
  newest key [] = none
  newest key ((k, v) ∷ l) = if same k key then some v else newest key l

  -- The entries without the newest one of a key.
  abbrev pub without : K → List (K × T) → List (K × T)
  without key [] = []
  without key ((k, v) ∷ l) = if same k key then l else (k, v) ∷ without key l

-- What `erase` does with the result of its loop.
abbrev answer {ℓ κ} :
    {K : Type ℓ} {T : Type κ} → Map K T → ℕ → Option (List (K × T)) → Outcome (Bool × Map K T)
answer m index o = elim o [
  | none ↦ done (false, m)
  | some rest ↦ done (
    true,
    record m { m_data = set m.m_data index rest; m_size = (m.m_size + u64_mod - 1) % u64_mod },
  )
]

module _ {ℓ κ} {K : Type ℓ} {T : Type κ} (hash : K → ℕ → ℕ) where
  -- The entries whose key belongs to chain `i`.
  abbrev pub chain_of : ℕ → List (K × T) → List (K × T)
  chain_of i [] = []
  chain_of i ((k, v) ∷ l) = if hash k 10 == i then (k, v) ∷ chain_of i l else chain_of i l

  pub record Represents (m : Map K T) (l : List (K × T)) : Type (ℓ ⊔ κ) where
    pub capacity : m.m_capacity ≡ 10
    pub size : m.m_size ≡ length l
    pub table : length m.m_data ≡ 10
    pub chains : (i : ℕ) → i < 10 → get_elem? m.m_data i ≡ some (chain_of i l)

  chain_at-Represents :
      (m : Map K T) (l : List (K × T)) (i : ℕ)
      → Represents m l
      → i < 10
      → chain_at i m ≡ done (chain_of i l)
  unfolding chain_at
  chain_at-Represents m l i r h =
      ap (λ o. elim o [ none ↦ fault | some chain ↦ done chain ]) (r.chains i h)

  -- Only the chain that is written changes.
  set-chains :
      (m : Map K T) (l l' : List (K × T)) (j : ℕ)
      → Represents m l
      → j < 10
      → ((i : ℕ) → i ≢ j → chain_of i l' ≡ chain_of i l)
      → (i : ℕ) → i < 10
      → get_elem? (set m.m_data j (chain_of j l')) i ≡ some (chain_of i l')
  set-chains m l l' j r h other i hi = elim (Bool-cases (i == j)) [
    | inl e ↦
        let q : i ≡ j = ground arith in
        rw q (get_elem?-set_self m.m_data j (chain_of j l') (omega (arith, r.table)))
    | inr e ↦
        let q : i ≢ j = ground arith in
        get_elem?-set_ne m.m_data (chain_of j l') (λ p. q (sym p))
        ∙ r.chains i hi
        ∙ ap some (sym (other i q))
  ]

small_product : (n : ℕ) → n < 6 → n * (n / 2) ≤ 10
small_product n h =
    let half : n / 2 ≤ 2 = omega arith in
    let twice : n * (n / 2) ≤ n * 2 = grind arith in omega arith

module _ {ℓ κ} {K : Type ℓ} {T : Type κ} (hash : K → ℕ → ℕ) (same : K → K → Bool)
    (good : IsHash hash same) where
  chain-Represents :
      (m : Map K T) (l : List (K × T)) (key : K)
      → Represents hash m l
      → hash key 10 < 10
      → chain_at (hash key m.m_capacity) m ≡ done (chain_of hash (hash key 10) l)
  chain-Represents m l key r small =
      ap (λ c. chain_at (hash key c) m) r.capacity
      ∙ chain_at-Represents hash m l (hash key 10) r small

  find_chain-chain_of :
      (key : K) (l : List (K × T))
      → find_chain same key (chain_of hash (hash key 10) l) ≡ newest same key l
  unfolding find_chain
  find_chain-chain_of key [] = refl
  find_chain-chain_of key ((k, v) ∷ l) = elim (Bool-cases (same k key)) [
    | inl e ↦
        let q : (hash k 10 == hash key 10) ≡ true = ground (arith, good.equal k key e) in rw (q, e)
    | inr e ↦ elim (Bool-cases (hash k 10 == hash key 10)) [
      | inl q ↦ rw (q, e) (find_chain-chain_of key l)
      | inr q ↦ rw (q, e) (find_chain-chain_of key l)
    ]
  ]

  -- `find` returns the newest value of the key, and does not fault.
  pub find-Represents :
      (m : Map K T) (l : List (K × T)) (key : K)
      → Represents hash m l
      → hash key 10 < 10
      → find hash same key m ≡ done (newest same key l)
  unfolding find
  find-Represents m l key r small = rw (chain-Represents m l key r small, find_chain-chain_of key l)

  -- With four entries or fewer, `insert` puts its entry before all others.
  pub insert-Represents :
      (m : Map K T) (l : List (K × T)) (key : K) (v : T)
      → Represents hash m l
      → hash key 10 < 10
      → length l < 5
      → (m' : Map K T) × (insert hash same key v m ≡ done m') × Represents hash m' ((key, v) ∷ l)
  unfolding insert grow
  insert-Represents m l key v r small few =
      let at = chain-Represents m l key r small in
      let here : chain_of hash (hash key 10) ((key, v) ∷ l)
          ≡ (key, v) ∷ chain_of hash (hash key 10) l =
        ground arith in
      let index : hash key m.m_capacity ≡ hash key 10 = ap (hash key) r.capacity in
      let keep : ltb m.m_capacity ((m.m_size + 1) * ((m.m_size + 1) / 2)) ≡ false =
        ground (arith, small_product (m.m_size + 1), r.size, r.capacity) in
      (
        record m {
          m_data = set m.m_data (hash key 10) (chain_of hash (hash key 10) ((key, v) ∷ l));
          m_size = m.m_size + 1;
        },
        rw (at, keep, index, here),
        record {
          capacity = r.capacity;
          size = omega (arith, r.size);
          table =
              length-set m.m_data (hash key 10) (chain_of hash (hash key 10) ((key, v) ∷ l))
              ∙ r.table;
          chains = set-chains hash m l ((key, v) ∷ l) (hash key 10) r small (λ i ne. ground arith);
        },
      )

  -- With five entries, and a key whose hash is an index of the first table, `insert` faults: the table
  -- grows, and the copy reads behind the old one.
  insert-sixth :
      (m : Map K T) (l : List (K × T)) (key : K) (v : T)
      → Represents hash m l
      → hash key 10 < 10
      → length l ≡ 5
      → insert hash same key v m ≡ fault
  unfolding insert grow
  insert-sixth m l key v r small full =
      let at = chain-Represents m l key r small in
      let six : m.m_size ≡ 5 = omega (arith, r.size) in
      let grows : ltb m.m_capacity ((m.m_size + 1) * ((m.m_size + 1) / 2)) ≡ true =
        ap (λ n. ltb m.m_capacity ((n + 1) * ((n + 1) / 2))) six ∙ ground (arith, r.capacity) in
      let short : ltb
            (length
              (set m.m_data (hash key m.m_capacity) ((key, v) ∷ chain_of hash (hash key 10) l)))
            (m.m_capacity + m.m_capacity / 2)
          ≡ true =
        ground (
          arith,
          length-set m.m_data (hash key m.m_capacity) ((key, v) ∷ chain_of hash (hash key 10) l),
          r.table,
          r.capacity,
        ) in
      rw (at, grows, short)

  -- The loop of `erase` at a chain, and what stays of the entries.
  erase_chain-chain_of :
      (key : K) (l : List (K × T))
      → ((erase_chain same key (chain_of hash (hash key 10) l) ≡ none)
          × (newest same key l ≡ none)
          × (without same key l ≡ l))
        ⊎ ((erase_chain same key (chain_of hash (hash key 10) l)
              ≡ some (chain_of hash (hash key 10) (without same key l)))
            × (newest same key l ≢ none)
            × (length l ≡ suc (length (without same key l))))
  unfolding erase_chain
  erase_chain-chain_of key [] = inl (refl, refl, refl)
  erase_chain-chain_of key ((k, v) ∷ l) = elim (Bool-cases (same k key)) [
    | inl e ↦
        let q : (hash k 10 == hash key 10) ≡ true = ground (arith, good.equal k key e) in
        inr (rw (q, e), rw e (λ z. cc), rw e)
    | inr e ↦ elim (erase_chain-chain_of key l) [
      | inl (a, b, c) ↦ elim (Bool-cases (hash k 10 == hash key 10)) [
        | inl q ↦ inl (rw (q, e, a), rw e b, rw (e, c))
        | inr q ↦ inl (rw q a, rw e b, rw (e, c))
      ]
      | inr (a, b, c) ↦ elim (Bool-cases (hash k 10 == hash key 10)) [
        | inl q ↦ inr (rw (q, e, a, q), rw e b, rw (e) (ap suc c))
        | inr q ↦ inr (rw (q, e, q) a, rw e b, rw (e) (ap suc c))
      ]
    ]
  ]

  -- Other chains have nothing of that key.
  chain_of-without :
      (i : ℕ) (key : K) (l : List (K × T))
      → i ≢ hash key 10
      → chain_of hash i (without same key l) ≡ chain_of hash i l
  chain_of-without i key [] ne = refl
  chain_of-without i key ((k, v) ∷ l) ne = elim (Bool-cases (same k key)) [
    | inl e ↦ let q : (hash k 10 == i) ≡ false = ground (arith, good.equal k key e) in rw (e, q)
    | inr e ↦
        rw e (ap (λ c. if hash k 10 == i then (k, v) ∷ c else c) (chain_of-without i key l ne))
  ]

  -- `erase` takes the newest entry of the key away, and says whether there was one.
  pub erase-Represents :
      (m : Map K T) (l : List (K × T)) (key : K)
      → Represents hash m l
      → hash key 10 < 10
      → length l ≤ 5
      → (b : Bool) × (m' : Map K T) × (erase hash same key m ≡ done (b, m'))
        × Represents hash m' (without same key l)
        × ((b ≡ true) ↔ (newest same key l ≢ none))
  unfolding erase
  erase-Represents m l key r small few =
      let at = chain-Represents m l key r small in
      let index : hash key m.m_capacity ≡ hash key 10 = ap (hash key) r.capacity in
      elim (erase_chain-chain_of key l) [
        | inl (a, b, c) ↦ (
          false,
          m,
          rw at (ap (answer m (hash key m.m_capacity)) a),
          subst (Represents hash m) (sym c) r,
          ((λ e. cc), (λ ne. absurd (ne b))),
        )
        | inr (a, b, c) ↦
            let rest = chain_of hash (hash key 10) (without same key l) in
            let size : (m.m_size + u64_mod - 1) % u64_mod ≡ length (without same key l) =
              omega (arith, r.size) in
            (
              true,
              record m {
                m_data = set m.m_data (hash key 10) rest;
                m_size = (m.m_size + u64_mod - 1) % u64_mod;
              },
              rw at (
                  ap (answer m (hash key m.m_capacity)) a ∙ ap (λ i. answer m i (some rest)) index),
              record {
                capacity = r.capacity;
                size = size;
                table = length-set m.m_data (hash key 10) rest ∙ r.table;
                chains =
                    set-chains hash m l (without same key l) (hash key 10) r small
                      (λ i ne. chain_of-without i key l ne);
              },
              ((λ e. b), (λ ne. refl)),
            )
      ]

  get_elem?-empty_chains :
      (n i : ℕ) → i < n → get_elem? (empty_chains {K = K} {T = T} n) i ≡ some []
  unfolding empty_chains
  get_elem?-empty_chains zero i h = elim h [ ]
  get_elem?-empty_chains (suc n) zero h = refl
  get_elem?-empty_chains (suc n) (suc i) h = get_elem?-empty_chains n i (omega arith)

  pub map-Represents : Represents {T = T} hash map []
  unfolding map
  map-Represents = record {
    capacity = refl;
    size = refl;
    table = refl;
    chains = λ i h. get_elem?-empty_chains 10 i h;
  }
