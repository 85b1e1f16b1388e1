-- ===== src/Vpower/Slashing/Sums.antt =====
-- ctrlers/vpower/ctrler_punish.go: the sums that the slash of one delegator keeps in step.
use beatoz_go.Base.{
  ℕ, ◌+◌, ◌-◌, ◌*◌, ◌/◌, ◌≤◌, ◌<◌, ◌^◌, ◌≡◌, refl, Bool, true, false, List, [], ◌∷◌, ok,
  if◌then◌else◌, arith,
}
use native.Mathlib.Nat.{mul-le-mul_left, mod-eq_of_lt}
use beatoz_go.Base.Words.{sub64, mul64, div64, div64_exact, from_int32}
use beatoz_go.Base.Bytes.{Bytes, bytes_eq}
use beatoz_go.Vpower.Chunks.{PowerChunk, VPower}
use beatoz_go.Vpower.Slashing.{Slashed, count_slash, slash_chunks, slash_vpower}

-- The part of a power that a rate in percent takes.
abbrev pub part_of : ℕ → ℕ → ℕ
part_of rate power = power * rate / 100

abbrev pub powers : List PowerChunk → ℕ
powers [] = 0
powers (c ∷ cs) = c.power + powers cs

abbrev pub slashes : ℕ → List PowerChunk → ℕ
slashes rate [] = 0
slashes rate (c ∷ cs) = part_of rate c.power + slashes rate cs

abbrev pub lowered : ℕ → List PowerChunk → List PowerChunk
lowered rate [] = []
lowered rate (c ∷ cs) = record c { power = c.power - part_of rate c.power } ∷ lowered rate cs

part_of_lem :
    (rate power : ℕ)
    → rate ≤ 100
    → power < 2 ^ 56
    → (div64 (mul64 power (from_int32 rate)) 100 ≡ ok (part_of rate power))
      × (part_of rate power ≤ power)
part_of_lem rate power hr hp =
    let small = mul-le-mul_left power hr in
    (
      rw (plain, mod-eq_of_lt (word small))
          (div64_exact (power * rate) 100 (fits small) (omega arith) (omega arith)),
      omega (arith, small),
    )
  where
    plain : from_int32 rate ≡ rate
    plain = ground arith

    fits : power * rate ≤ power * 100 → power * rate < 2 ^ 63
    fits small = omega arith

    word : power * rate ≤ power * 100 → power * rate < 2 ^ 64
    word small = omega arith

-- The sums of a delegatee with a power taken off.
abbrev pub taken_off : Bool → ℕ → Slashed → Slashed
taken_off self n z = record {
  dgtee = record z.dgtee {
    sum_power = z.dgtee.sum_power - n;
    self_power = if self then z.dgtee.self_power - n else z.dgtee.self_power;
  };
  slashed_power = z.slashed_power + n;
}

-- The sums are int64 and cover a power.
pub record Covers (self : Bool) (n sum : ℕ) (z : Slashed) : Type 0 where
  pub sum_small : sum < 2 ^ 56
  pub total_small : z.dgtee.sum_power < 2 ^ 63
  pub self_small : z.dgtee.self_power < 2 ^ 63
  pub slashed_small : z.slashed_power + n < 2 ^ 63
  pub in_sum : n ≤ sum
  pub in_total : n ≤ z.dgtee.sum_power
  pub in_self : self ≡ true → n ≤ z.dgtee.self_power

slashes_le :
    (rate : ℕ) (cs : List PowerChunk)
    → rate ≤ 100
    → powers cs < 2 ^ 56
    → slashes rate cs ≤ powers cs
slashes_le rate [] hr h = omega arith
slashes_le rate (c ∷ cs) hr h =
    let later = slashes_le rate cs hr (omega (arith, h)) in
    let (e, le) = part_of_lem rate c.power hr (omega (arith, h)) in omega (arith, later, le)

-- A record of sums is given by its sums.
abbrev with_sums : Slashed → ℕ → ℕ → ℕ → Slashed
with_sums z total self slashed = record {
  dgtee = record z.dgtee { sum_power = total; self_power = self };
  slashed_power = slashed;
}

with_sums_cong :
    (z : Slashed) (t t' f f' p p' : ℕ)
    → t ≡ t'
    → f ≡ f'
    → p ≡ p'
    → with_sums z t f p ≡ with_sums z t' f' p'
with_sums_cong z t t' f f' p p' e1 e2 e3 i = with_sums z (e1 i) (e2 i) (e3 i)

off_zero : (n : ℕ) → n ≡ n - 0
off_zero n = omega arith

nothing_off : (self : Bool) (z : Slashed) → z ≡ taken_off self 0 z
nothing_off true z =
    with_sums_cong z _ _ _ _ _ _ (off_zero z.dgtee.sum_power) (off_zero z.dgtee.self_power)
      (omega arith)
nothing_off false z =
    with_sums_cong z _ _ _ _ z.slashed_power _ (off_zero z.dgtee.sum_power) refl (omega arith)

one_off :
    (all n later : ℕ) → all < 2 ^ 63 → n + later ≤ all → sub64 (all - later) n ≡ all - (n + later)
one_off all n later h le = omega arith

counted :
    (self : Bool) (n later most sum : ℕ) (z : Slashed)
    → n + later ≤ most
    → Covers self most sum z
    → count_slash self n (taken_off self later z) ≡ taken_off self (n + later) z
counted true n later most sum z le h =
    with_sums_cong z _ _ _ _ _ _
      (one_off z.dgtee.sum_power n later h.total_small (omega (arith, h.in_total, le)))
      (one_off z.dgtee.self_power n later h.self_small (omega (arith, h.in_self refl, le)))
      (omega (arith, h.slashed_small, le))
counted false n later most sum z le h =
    with_sums_cong z _ _ _ _ _ _
      (one_off z.dgtee.sum_power n later h.total_small (omega (arith, h.in_total, le))) refl
      (omega (arith, h.slashed_small, le))

fewer :
    (self : Bool) (n m sum : ℕ) (z : Slashed) → m ≤ n → Covers self n sum z → Covers self m sum z
fewer self n m sum z le h = record {
  sum_small = h.sum_small;
  total_small = h.total_small;
  self_small = h.self_small;
  slashed_small = omega (arith, h.slashed_small, le);
  in_sum = omega (arith, h.in_sum, le);
  in_total = omega (arith, h.in_total, le);
  in_self = λ e. omega (arith, h.in_self e, le);
}

slash_chunks_exact :
    (rate : ℕ) (self : Bool) (cs : List PowerChunk) (sum : ℕ) (z : Slashed)
    → rate ≤ 100
    → Covers self (powers cs) sum z
    → slash_chunks rate self cs sum z
      ≡ ok (lowered rate cs, sum - slashes rate cs, taken_off self (slashes rate cs) z)
unfolding slash_chunks
slash_chunks_exact rate self [] sum z hr h = λ i. ok ([], off_zero sum i, nothing_off self z i)
slash_chunks_exact rate self (c ∷ cs) sum z hr h =
    let le = slashes_le rate cs hr (omega (arith, h.in_sum, h.sum_small)) in
    let (share, part) = part_of_lem rate c.power hr (omega (arith, h.in_sum, h.sum_small)) in
    let later =
      slash_chunks_exact rate self cs sum z hr
        (fewer self (powers (c ∷ cs)) (powers cs) sum z (omega arith) h) in
    let most : part_of rate c.power + slashes rate cs ≤ powers (c ∷ cs) = omega (arith, part, le) in
    rw (later, share)
      λ i. ok (
        record c {
          power = one c.power (part_of rate c.power) (omega (arith, h.in_sum, h.sum_small)) part i;
        }
            ∷ lowered rate cs,
        one_off sum (part_of rate c.power) (slashes rate cs) (omega (arith, h.sum_small))
            (omega (arith, most, h.in_sum)) i,
        counted self (part_of rate c.power) (slashes rate cs) (powers (c ∷ cs)) sum z most h i,
      )
  where
    one : (p n : ℕ) → p < 2 ^ 63 → n ≤ p → sub64 p n ≡ p - n
    one p n hp le = omega arith

powers-lowered :
    (rate : ℕ) (cs : List PowerChunk)
    → rate ≤ 100
    → powers cs < 2 ^ 56
    → powers (lowered rate cs) + slashes rate cs ≡ powers cs
powers-lowered rate [] hr h = omega arith
powers-lowered rate (c ∷ cs) hr h =
    let later = powers-lowered rate cs hr (omega (arith, h)) in
    let (e, le) = part_of_lem rate c.power hr (omega (arith, h)) in omega (arith, later, le)

-- What a slash leaves of a delegator's voting power and of the sums of its delegatee.
pub record IsSlashed (rate : ℕ) (self : Bool) (v v' : VPower) (z z' : Slashed) : Type 0 where
  pub chunks_are : v'.power_chunks ≡ lowered rate v.power_chunks
  pub in_step : v'.sum_power ≡ powers v'.power_chunks
  pub sum_lost : v'.sum_power + slashes rate v.power_chunks ≡ v.sum_power
  pub sums_lost : z' ≡ taken_off self (slashes rate v.power_chunks) z
  pub same_owner : (v'.from ≡ v.from) × (v'.to ≡ v.to) × (v'.key ≡ v.key)

-- The slash of one delegator at a rate of at most 100 percent, where its recorded power is the sum of
-- its chunks, below 2 ^ 56, and the delegatee's sums cover it: it succeeds. Each chunk loses its part
-- of the rate, rounded down. The recorded power is again the sum of the chunks; it, the delegatee's
-- total, and for the validator's own stake its self power, lose exactly the sum of these parts,
-- which is what the slashed power gains. Nothing wraps around.
pub slash_vpower_exact :
    (rate : ℕ) (addr : Bytes) (v : VPower) (z : Slashed)
    → rate ≤ 100
    → v.sum_power ≡ powers v.power_chunks
    → Covers (bytes_eq addr v.to) (powers v.power_chunks) v.sum_power z
    → (v' : VPower) × (z' : Slashed) × (slash_vpower rate addr v z ≡ ok (v', z'))
      × IsSlashed rate (bytes_eq addr v.to) v v' z z'
unfolding slash_vpower
slash_vpower_exact rate addr v z hr e h =
    let self = bytes_eq addr v.to in
    let lost = powers-lowered rate v.power_chunks hr (omega (arith, h.in_sum, h.sum_small)) in
    (
      record v {
        power_chunks = lowered rate v.power_chunks;
        sum_power = v.sum_power - slashes rate v.power_chunks;
      },
      taken_off self (slashes rate v.power_chunks) z,
      rw (slash_chunks_exact rate self v.power_chunks v.sum_power z hr h) refl,
      record {
        chunks_are = refl;
        in_step = omega (arith, lost, e);
        sum_lost = omega (arith, lost, e);
        sums_lost = refl;
        same_owner = (refl, refl, refl);
      },
    )
