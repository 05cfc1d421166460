-- ===== src/Policy/Ident.antt =====
-- bwctld/policy.c: the user class of a connection, from its address (GetNodeFromAddr). An address
-- is its bytes, four or sixteen. The table of identities is I2's hash table: what it holds for a
-- netmask key (mask length and address bytes) is the argument `fetch`.
use mathlib.Core.Path.{subst}
use bwctl.Prelude.{
  ℕ, zero, suc, ◌-◌, ◌*◌, ◌/◌, ◌%◌, ◌^◌, ◌≤◌, ◌<◌, ◌≡◌, refl, sym, ap, true, Option, none, some,
  List, [], ◌∷◌, arith, leb, if◌then◌else◌, Bool-cases, inl, inr, leb→le, leb→lt, length,
}

-- `*ptr &= (0xFF << (8-nbits))` at byte `nbytes`; behind the last byte nothing is done.
unfoldable pub zero_at : ℕ → ℕ → List ℕ → List ℕ
zero_at nbytes nbits [] = []
zero_at zero nbits (b ∷ bytes) = (b - b % 2 ^ (8 - nbits)) ∷ bytes
zero_at (suc nbytes) nbits (b ∷ bytes) = b ∷ zero_at nbytes nbits bytes

-- The loop over the mask lengths.
unfoldable pub net_from : (ℕ → List ℕ → Option ℕ) → ℕ → List ℕ → Option ℕ
unfolding zero_at
net_from fetch zero addr = none
net_from fetch (suc m) addr =
    let addr' = zero_at (suc m / 8) (suc m % 8) addr in
    let rest = net_from fetch m addr' in
    elim (fetch (suc m) addr') [ none ↦ rest | some node ↦ some node ]

-- GetNodeFromAddr, with the node that GetNodeDefault gives.
unfoldable pub node_from_addr : (ℕ → List ℕ → Option ℕ) → ℕ → List ℕ → ℕ
unfolding net_from
node_from_addr fetch default addr = elim (net_from fetch (length addr * 8) addr) [
  | none ↦ default
  | some node ↦ node
]

-- The first `m` bits of an address, the others zero.
abbrev truncate : ℕ → List ℕ → List ℕ
truncate m [] = []
truncate m (b ∷ bytes) =
    if leb 8 m then b ∷ truncate (m - 8) bytes else (b - b % 2 ^ (8 - m)) ∷ truncate 0 bytes

-- One more bit of a byte.
zero_next :
    (m b : ℕ)
    → m < 7
    → (b - b % 2 ^ (8 - suc m)) - (b - b % 2 ^ (8 - suc m)) % 2 ^ (8 - m) ≡ b - b % 2 ^ (8 - m)
zero_next zero b h = omega arith
zero_next (suc zero) b h = omega arith
zero_next (suc (suc zero)) b h = omega arith
zero_next (suc (suc (suc zero))) b h = omega arith
zero_next (suc (suc (suc (suc zero)))) b h = omega arith
zero_next (suc (suc (suc (suc (suc zero))))) b h = omega arith
zero_next (suc (suc (suc (suc (suc (suc zero)))))) b h = omega arith
zero_next (suc (suc (suc (suc (suc (suc (suc m))))))) b h = absurd (omega arith)

zero_at-truncate :
    (m : ℕ) (addr : List ℕ) → zero_at (m / 8) (m % 8) (truncate (suc m) addr) ≡ truncate m addr
unfolding zero_at
zero_at-truncate m [] = refl
zero_at-truncate m (b ∷ bytes) = elim (Bool-cases (leb 8 m)) [
  | inl more ↦
      let wide : leb 8 (suc m) ≡ true = ground (arith, leb→le _ _ more) in
      let q : m / 8 ≡ suc ((m - 8) / 8) = omega (arith, leb→le _ _ more) in
      let r : m % 8 ≡ (m - 8) % 8 = omega (arith, leb→le _ _ more) in
      let d : suc m - 8 ≡ suc (m - 8) = omega (arith, leb→le _ _ more) in
      rw (more, wide, q, r, d) (ap (λ bs. b ∷ bs) (zero_at-truncate (m - 8) bytes))
  | inr less ↦
      let q : m / 8 ≡ 0 = omega (arith, leb→lt _ _ less) in
      let r : m % 8 ≡ m = omega (arith, leb→lt _ _ less) in
      rw (less, q, r)
        (elim (Bool-cases (leb 8 (suc m))) [
          | inl whole ↦ let d : suc m - 8 ≡ 0 = omega (arith, leb→lt _ _ less) in rw (whole, d) refl
          | inr part ↦
              rw part
                (ap (λ x. x ∷ truncate 0 bytes) (zero_next m b (omega (arith, leb→lt _ _ part))))
        ])
]

truncate_whole : (m : ℕ) (addr : List ℕ) → length addr * 8 ≤ m → truncate m addr ≡ addr
truncate_whole m [] h = refl
truncate_whole m (b ∷ bytes) h =
    let wide : leb 8 m ≡ true = ground arith in
    rw wide (ap (λ bs. b ∷ bs) (truncate_whole (m - 8) bytes (omega arith)))

-- What a search of the masks up to `size` should find: nothing, where no masked address is in the
-- table, or the class of one that is, where no longer mask gives another.
abbrev pub Longest : (ℕ → List ℕ → Option ℕ) → List ℕ → ℕ → Option ℕ → Type 0
Longest fetch addr size none = (k : ℕ) → 0 < k → k ≤ size → fetch k (truncate k addr) ≡ none
Longest fetch addr size (some node) =
    (m : ℕ) × (0 < m)
    × (m ≤ size)
    × (fetch m (truncate m addr) ≡ some node)
    × ((k : ℕ) → m < k → k ≤ size → fetch k (truncate k addr) ≡ none)

none_up_to :
    (fetch : ℕ → List ℕ → Option ℕ) (addr : List ℕ) (low m : ℕ)
    → fetch (suc m) (truncate (suc m) addr) ≡ none
    → ((k : ℕ) → low < k → k ≤ m → fetch k (truncate k addr) ≡ none)
    → (k : ℕ) → low < k
    → k ≤ suc m
    → fetch k (truncate k addr) ≡ none
none_up_to fetch addr low m e ih k lo hi = elim (Bool-cases (leb k m)) [
  | inl below ↦ ih k lo (leb→le _ _ below)
  | inr above ↦ let last : k ≡ suc m = omega (arith, leb→lt _ _ above) in rw last e
]

Longest-step :
    (fetch : ℕ → List ℕ → Option ℕ) (addr : List ℕ) (m : ℕ) (o rest : Option ℕ)
    → fetch (suc m) (truncate (suc m) addr) ≡ o
    → Longest fetch addr m rest
    → Longest fetch addr (suc m) (elim o [ none ↦ rest | some node ↦ some node ])
Longest-step fetch addr m (some node) rest e v =
    (suc m, omega arith, omega arith, e, λ k lo hi. absurd (omega arith))
Longest-step fetch addr m none none e v = none_up_to fetch addr 0 m e v
Longest-step fetch addr m none (some node) e (k, lo, hi, found, above) =
    (k, lo, omega arith, found, none_up_to fetch addr k m e above)

net_from-Longest :
    (fetch : ℕ → List ℕ → Option ℕ) (addr : List ℕ) (m : ℕ)
    → Longest fetch addr m (net_from fetch m (truncate (suc m) addr))
unfolding net_from
net_from-Longest fetch addr zero = λ k lo hi. absurd (omega arith)
net_from-Longest fetch addr (suc m) =
    subst
      (λ a.
        Longest fetch addr (suc m)
          (elim (fetch (suc m) a) [ none ↦ net_from fetch m a | some node ↦ some node ]))
      (sym (zero_at-truncate (suc m) addr))
      (Longest-step fetch addr m (fetch (suc m) (truncate (suc m) addr))
        (net_from fetch m (truncate (suc m) addr)) refl (net_from-Longest fetch addr m))

-- The class of an address is that of the longest mask, from one bit to the whole address, for which
-- the masked address is in the table of identities; it is the default where no mask gives one.
pub node_from_addr-Longest :
    (fetch : ℕ → List ℕ → Option ℕ) (default : ℕ) (addr : List ℕ)
    → (found : Option ℕ) × Longest fetch addr (length addr * 8) found
      × (node_from_addr fetch default addr ≡ (elim found [ none ↦ default | some node ↦ node ]))
unfolding node_from_addr
node_from_addr-Longest fetch default addr =
    let n = length addr * 8 in
    let whole = truncate_whole (suc n) addr (omega arith) in
    (
      net_from fetch n addr,
      subst (λ a. Longest fetch addr n (net_from fetch n a)) whole (net_from-Longest fetch addr n),
      refl,
    )
