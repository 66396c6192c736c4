-- ===== src/Apples/Bits.antt =====
-- The number of bits in which two words differ, as `imgsim.Distance` is documented, and the words of
-- a `phs`.
use pbooru.Prelude.{
  ==_iff, ==_refl, arith, if◌then◌else◌, refl, suc, zero, ℕ, ◌*◌, ◌+◌, ◌<◌, ◌==◌, ◌≡◌,
}
use Prim.Native.Nat.{◌/◌, ◌%◌}

unfoldable pub differing : ℕ → ℕ → ℕ → ℕ
differing zero a b = 0
differing (suc n) a b = (if a % 2 == b % 2 then 0 else 1) + differing n (a / 2) (b / 2)

-- r * 2^m
unfoldable pub shifted : ℕ → ℕ → ℕ
shifted zero r = r
shifted (suc m) r = 2 * shifted m r

-- words that stand above m lower bits
pub differing-split :
    (m n w w' r r' : ℕ)
    → w < shifted m 1
    → w' < shifted m 1
    → differing (m + n) (w + shifted m r) (w' + shifted m r') ≡ differing m w w' + differing n r r'
unfolding differing shifted
differing-split zero n w w' r r' h h' =
    let low : w + shifted 0 r ≡ r = omega arith in
    let low' : w' + shifted 0 r' ≡ r' = omega arith in
    let all : 0 + n ≡ n = omega arith in rw (low, low', all) (omega arith)
differing-split (suc m) n w w' r r' h h' =
    let a = w + 2 * shifted m r in
    let b = w' + 2 * shifted m r' in
    let longer : suc m + n ≡ suc (m + n) = omega arith in
    let step : differing (suc (m + n)) a b
        ≡ (if a % 2 == b % 2 then 0 else 1) + differing (m + n) (a / 2) (b / 2) =
      refl in
    let odd : a % 2 ≡ w % 2 = omega arith in
    let odd' : b % 2 ≡ w' % 2 = omega arith in
    let low : a / 2 ≡ w / 2 + shifted m r = omega arith in
    let low' : b / 2 ≡ w' / 2 + shifted m r' = omega arith in
    let rest = differing-split m n (w / 2) (w' / 2) r r' (omega arith) (omega arith) in
    rw (longer, step, odd, odd', low, low', rest) (omega arith)

pub differing_same : (n a : ℕ) → differing n a a ≡ 0
unfolding differing
differing_same zero a = refl
differing_same (suc n) a = ground (arith, differing_same n (a / 2), ==_refl (a % 2))

-- words of n bits that differ in no bit are equal
pub differing_zero : (n a b : ℕ) → a < shifted n 1 → b < shifted n 1 → differing n a b ≡ 0 → a ≡ b
unfolding differing shifted
differing_zero zero a b h h' e = omega arith
differing_zero (suc n) a b h h' e =
    let same : a % 2 ≡ b % 2 = ground (arith, e, ==_iff (a % 2) (b % 2)) in
    let rest : a / 2 ≡ b / 2 =
      differing_zero n (a / 2) (b / 2) (omega arith) (omega arith) (ground (arith, e)) in
    omega arith
