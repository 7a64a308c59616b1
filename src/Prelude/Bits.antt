-- ===== src/Prelude/Bits.antt =====
-- Bits of a byte: single-bit masks, and little-endian numbers in memory.
use Prim.Native.Nat.{ℕ, zero, suc, ◌-◌, ◌+◌, ◌*◌, ◌/◌, ◌%◌, ◌^◌, ◌<◌, bit_and, bit_or}
use mathlib.Core.Path.{◌≡◌, refl, ap}
use mathlib.Core.Option.{some}
use mathlib.Core.List.{List, [], ◌∷◌}
use native.Mathlib.Nat.{pow-suc}
use plcmaster.Prelude.Lists.{length, get_elem?, set, blit}
use mathlib.Core.Bool.{Bool, true, false, ◌&&◌}
use native.Mathlib.Omega.{arith}
use plcmaster.Prelude.Tests.{ltb, ltb→lt, ◌==◌, if◌then◌else◌}

-- Every element is a byte.
pub record IsBytes (base : List ℕ) : Type 0 where
  pub byte : (k b : ℕ) → get_elem? base k ≡ some b → b < 256

-- `((x >> k) & 1) != 0`
unfoldable pub test_bit : ℕ → ℕ → Bool
test_bit x k = x / 2 ^ k % 2 == 1

-- `x |= (uint8_t)(1 << k)`
unfoldable pub set_bit : ℕ → ℕ → ℕ
set_bit x k = bit_or x (2 ^ k)

-- `x &= (uint8_t)~(1 << k)`
unfoldable pub clear_bit : ℕ → ℕ → ℕ
clear_bit x k = bit_and x (255 - 2 ^ k)

-- Whether a test is passed by each number below a bound, by evaluation.
passes : (ℕ → Bool) → ℕ → Bool
passes test zero = true
passes test (suc most) = passes test most && test most

passes_at : (test : ℕ → Bool) (most i : ℕ) → i < most → passes test most ≡ true → test i ≡ true
unfolding passes
passes_at test zero i lt h = elim lt [ ]
passes_at test (suc most) i lt h = ground (arith, passes_at test most i)

same : Bool → Bool → Bool
same true b = b
same false true = false
same false false = true

same_eq : (a b : Bool) → same a b ≡ true → a ≡ b
unfolding same
same_eq true b h = ground arith
same_eq false true h = ground arith
same_eq false false h = refl

-- Bit `j` of the byte `x` after bit `k` was set (`v`) or cleared.
abbrev pub write_bit : ℕ → ℕ → Bool → ℕ
write_bit x k v = if v then set_bit x k else clear_bit x k

ok_bit : ℕ → ℕ → ℕ → Bool → Bool
unfolding same test_bit set_bit clear_bit
ok_bit x k j v = same (test_bit (write_bit x k v) j) (if k == j then v else test_bit x j)

ok_byte : ℕ → ℕ → Bool
unfolding ok_bit passes
ok_byte x k =
    passes (λ j. ok_bit x k j true && ok_bit x k j false) 8
    && ltb (set_bit x k) 256
    && ltb (clear_bit x k) 256

table : passes (λ x. passes (λ k. ok_byte x k) 8) 256 ≡ true
unfolding passes ok_byte
table = refl

ok_byte_all : (x k : ℕ) → x < 256 → k < 8 → ok_byte x k ≡ true
ok_byte_all x k hx hk =
    passes_at (λ k. ok_byte x k) 8 k hk
      (passes_at (λ x. passes (λ k. ok_byte x k) 8) 256 x hx table)

and_true : (a b : Bool) → (a && b) ≡ true → (a ≡ true) × (b ≡ true)
and_true a b h = ground arith

and_true_three : (a b c : Bool) → (a && b && c) ≡ true → (a ≡ true) × (b ≡ true) × (c ≡ true)
and_true_three a b c h = ground arith

-- Setting or clearing bit `k` of a byte changes that bit alone.
pub test_bit-write_bit :
    (x k j : ℕ) (v : Bool)
    → x < 256
    → k < 8
    → j < 8
    → test_bit (write_bit x k v) j ≡ (if k == j then v else test_bit x j)
unfolding ok_byte
test_bit-write_bit x k j v hx hk hj = pick v (
    passes_at (λ i. ok_bit x k i true && ok_bit x k i false) 8 j hj
      (and_true_three _ _ _ (ok_byte_all x k hx hk)).0)
  where
    pick :
        (w : Bool)
        → (ok_bit x k j true && ok_bit x k j false) ≡ true
        → test_bit (write_bit x k w) j ≡ (if k == j then w else test_bit x j)
    pick true h = same_eq _ _ (and_true _ _ h).0
    pick false h = same_eq _ _ (and_true _ _ h).1

-- The result is a byte again.
pub write_bit-lt : (x k : ℕ) (v : Bool) → x < 256 → k < 8 → write_bit x k v < 256
unfolding ok_byte
write_bit-lt x k v hx hk = pick v (and_true_three _ _ _ (ok_byte_all x k hx hk))
  where
    pick :
        (w : Bool)
        → (passes (λ j. ok_bit x k j true && ok_bit x k j false) 8 ≡ true)
          × (ltb (set_bit x k) 256 ≡ true)
          × (ltb (clear_bit x k) 256 ≡ true)
        → write_bit x k w < 256
    pick true h = ltb→lt _ _ h.1
    pick false h = ltb→lt _ _ h.2

-- An `n`-byte unsigned integer in memory, least significant byte first.
unfoldable pub le_bytes : ℕ → ℕ → List ℕ
le_bytes zero v = []
le_bytes (suc n) v = (v % 256) ∷ le_bytes n (v / 256)

unfoldable pub le_value : List ℕ → ℕ
le_value [] = 0
le_value (b ∷ bs) = b + 256 * le_value bs

pub length-le_bytes : (n v : ℕ) → length (le_bytes n v) ≡ n
unfolding le_bytes
length-le_bytes zero v = refl
length-le_bytes (suc n) v = ap suc (length-le_bytes n (v / 256))

pub le_value-le_bytes : (n v : ℕ) → v < 256 ^ n → le_value (le_bytes n v) ≡ v
unfolding le_bytes le_value
le_value-le_bytes zero v h = omega arith
le_value-le_bytes (suc n) v h =
    omega (arith, le_value-le_bytes n (v / 256) (omega (arith, pow-suc 256 n)))

IsBytes-tail : {x : ℕ} {xs : List ℕ} → IsBytes (x ∷ xs) → IsBytes xs
IsBytes-tail h = record { byte = λ k b at. h.byte (suc k) b at }

IsBytes-cons : {x : ℕ} {xs : List ℕ} → x < 256 → IsBytes xs → IsBytes (x ∷ xs)
IsBytes-cons {x} {xs} lt h = record { byte = go }
  where
    go : (k b : ℕ) → get_elem? (x ∷ xs) k ≡ some b → b < 256
    go zero b at = let e : x ≡ b = cc in omega arith
    go (suc k) b at = h.byte k b at

IsBytes-nil : IsBytes []
IsBytes-nil = record { byte = λ k b at. cc }

pub IsBytes-set : (xs : List ℕ) (i v : ℕ) → IsBytes xs → v < 256 → IsBytes (set xs i v)
IsBytes-set [] i v h lt = h
IsBytes-set (x ∷ xs) zero v h lt = IsBytes-cons lt (IsBytes-tail h)
IsBytes-set (x ∷ xs) (suc i) v h lt =
    IsBytes-cons (h.byte 0 x refl) (IsBytes-set xs i v (IsBytes-tail h) lt)

pub IsBytes-blit :
    (xs : List ℕ) (i : ℕ) (bs : List ℕ) → IsBytes xs → IsBytes bs → IsBytes (blit xs i bs)
IsBytes-blit [] i bs h hb = h
IsBytes-blit (x ∷ xs) zero [] h hb = h
IsBytes-blit (x ∷ xs) zero (b ∷ bs) h hb =
    IsBytes-cons (hb.byte 0 b refl) (IsBytes-blit xs zero bs (IsBytes-tail h) (IsBytes-tail hb))
IsBytes-blit (x ∷ xs) (suc i) bs h hb =
    IsBytes-cons (h.byte 0 x refl) (IsBytes-blit xs i bs (IsBytes-tail h) hb)

pub le_bytes-IsBytes : (n v : ℕ) → IsBytes (le_bytes n v)
unfolding le_bytes
le_bytes-IsBytes zero v = IsBytes-nil
le_bytes-IsBytes (suc n) v = IsBytes-cons (omega arith) (le_bytes-IsBytes n (v / 256))
