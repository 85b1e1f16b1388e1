-- ===== src/Vpower/Sums.antt =====
-- ctrlers/vpower: the sums of power chunks, and what a chunk that is added and deleted leaves.
use beatoz_go.Base.{
  ℕ, ◌<◌, ◌^◌, ◌≡◌, refl, ap, subst, some, List, [], ◌∷◌, ◌++◌, Bool-cases, Option-cases, inl, inr,
  arith,
}
use mathlib.Core.Option.{some-injective}
use beatoz_go.Base.Words.{add64, sub64}
use beatoz_go.Base.Bytes.{Bytes, bytes_eq, bytes_eq_refl}
use beatoz_go.Vpower.Chunks.{
  PowerChunk, VPower, add_power_with_tx_hash, take_chunk, del_power_with_tx_hash, sum_power_chunk,
}

abbrev pub FitAll : List PowerChunk → Type 0
FitAll [] = Unit {0}
FitAll (c ∷ cs) = (c.power < 2 ^ 64) × FitAll cs

-- The chunks' powers are int64 words, and the recorded sum is their sum.
pub record IsSummed (x : VPower) : Type 0 where
  pub chunks_fit : FitAll x.power_chunks
  pub summed : x.sum_power ≡ sum_power_chunk x.power_chunks

FitAll-append :
    (c : PowerChunk) (cs : List PowerChunk) → c.power < 2 ^ 64 → FitAll cs → FitAll (cs ++ (c ∷ []))
FitAll-append c [] h a = (h, tt)
FitAll-append c (d ∷ cs) h (b, rest) = (b, FitAll-append c cs h rest)

FitAll-take_chunk :
    (txhash : Bytes) (cs : List PowerChunk) (c : PowerChunk) (rest : List PowerChunk)
    → take_chunk txhash cs ≡ some (c, rest)
    → FitAll cs
    → (c.power < 2 ^ 64) × FitAll rest
unfolding take_chunk
FitAll-take_chunk txhash [] c rest e a = cc
FitAll-take_chunk txhash (d ∷ cs) c rest e (h, a) = elim (Option-cases (take_chunk txhash cs)) [
  | inr ((f, r), later) ↦
      let (k, b) = FitAll-take_chunk txhash cs f r later a in
      subst (λ q. (q.0.power < 2 ^ 64) × FitAll q.1)
        (some-injective (f, d ∷ r) (c, rest) (rw later at e)) (k, (h, b))
  | inl none_later ↦ elim (Bool-cases (bytes_eq txhash d.tx_hash)) [
    | inl here ↦
        subst (λ q. (q.0.power < 2 ^ 64) × FitAll q.1)
          (some-injective (d, cs) (c, rest) (rw (none_later, here) at e)) (h, a)
    | inr absent ↦ cc (rw (none_later, absent) at e)
  ]
]

sum_fits : (cs : List PowerChunk) → sum_power_chunk cs < 2 ^ 64
unfolding sum_power_chunk
sum_fits [] = omega arith
sum_fits (c ∷ cs) = omega arith

sum_power_chunk-append :
    (c : PowerChunk) (cs : List PowerChunk)
    → sum_power_chunk (cs ++ (c ∷ [])) ≡ add64 (sum_power_chunk cs) c.power
unfolding sum_power_chunk
sum_power_chunk-append c [] = omega arith
sum_power_chunk-append c (d ∷ cs) = omega (arith, sum_power_chunk-append c cs)

sum_power_chunk-take_chunk :
    (txhash : Bytes) (cs : List PowerChunk) (c : PowerChunk) (rest : List PowerChunk)
    → take_chunk txhash cs ≡ some (c, rest)
    → sum_power_chunk cs ≡ add64 c.power (sum_power_chunk rest)
unfolding sum_power_chunk take_chunk
sum_power_chunk-take_chunk txhash [] c rest e = cc
sum_power_chunk-take_chunk txhash (d ∷ cs) c rest e = elim (Option-cases (take_chunk txhash cs)) [
  | inr ((f, r), later) ↦
      subst (λ q. add64 d.power (sum_power_chunk cs) ≡ add64 q.0.power (sum_power_chunk q.1))
        (some-injective (f, d ∷ r) (c, rest) (rw later at e))
        (omega (arith, sum_power_chunk-take_chunk txhash cs f r later))
  | inl none_later ↦ elim (Bool-cases (bytes_eq txhash d.tx_hash)) [
    | inl here ↦
        subst (λ q. add64 d.power (sum_power_chunk cs) ≡ add64 q.0.power (sum_power_chunk q.1))
          (some-injective (d, cs) (c, rest) (rw (none_later, here) at e)) refl
    | inr absent ↦ cc (rw (none_later, absent) at e)
  ]
]

pub take_chunk-append :
    (c : PowerChunk) (cs : List PowerChunk) → take_chunk c.tx_hash (cs ++ (c ∷ [])) ≡ some (c, cs)
unfolding take_chunk
take_chunk-append c [] = rw (bytes_eq_refl c.tx_hash) refl
take_chunk-append c (d ∷ cs) = rw (take_chunk-append c cs) refl

-- A chunk that is added under a hash is the one that is deleted under it, and the voting power is
-- then as it was, where its sum and the chunk's power are int64 words.
pub del_power_with_tx_hash-add_power_with_tx_hash :
    (power height : ℕ) (txhash : Bytes) (x : VPower)
    → x.sum_power < 2 ^ 64
    → power < 2 ^ 64
    → del_power_with_tx_hash txhash (add_power_with_tx_hash power height txhash x)
      ≡ (some (record { power = power; height = height; tx_hash = txhash }), x)
unfolding del_power_with_tx_hash add_power_with_tx_hash
del_power_with_tx_hash-add_power_with_tx_hash power height txhash x h k =
    rw
      (
        take_chunk-append (record { power = power; height = height; tx_hash = txhash })
            x.power_chunks,
        del_power_with_tx_hash,
      )
      (λ i. (
        some (record { power = power; height = height; tx_hash = txhash }),
        record x { sum_power = back i },
      ))
  where
    back : sub64 (add64 x.sum_power power) power ≡ x.sum_power
    back = omega arith

-- The recorded sum of a voting power stays the sum of its chunks, whose powers are int64 words,
-- through an addition of such a power and a deletion, whether it finds a chunk or not.
pub add_del-IsSummed :
    (power height : ℕ) (txhash : Bytes) (x : VPower)
    → power < 2 ^ 64
    → IsSummed x
    → IsSummed (add_power_with_tx_hash power height txhash x)
      × IsSummed (del_power_with_tx_hash txhash x).1
unfolding del_power_with_tx_hash add_power_with_tx_hash
add_del-IsSummed power height txhash x h s =
    let c : PowerChunk = record { power = power; height = height; tx_hash = txhash } in
    (
      record {
        chunks_fit = FitAll-append c x.power_chunks h s.chunks_fit;
        summed = rw (sum_power_chunk-append c x.power_chunks) (ap (λ n. add64 n power) s.summed);
      },
      elim (Option-cases (take_chunk txhash x.power_chunks)) [
        | inl missing ↦ rw (missing, del_power_with_tx_hash) s
        | inr ((c, rest), found) ↦
            let (k, b) = FitAll-take_chunk txhash x.power_chunks c rest found s.chunks_fit in
            rw (found, del_power_with_tx_hash)
              (record {
                chunks_fit = b;
                summed = omega (
                  arith,
                  k,
                  s.summed,
                  sum_power_chunk-take_chunk txhash x.power_chunks c rest found,
                  sum_fits rest,
                );
              })
      ],
    )
