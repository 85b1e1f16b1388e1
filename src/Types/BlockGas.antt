-- ===== src/Types/BlockGas.antt =====
-- ctrlers/types/block_ctx.go: the gas, the fees and the transaction count of a block. The gas pool is
-- go-ethereum's core.GasPool, a parameter.
use beatoz_go.Base.{
  ℕ, ◌+◌, ◌≤◌, ◌<◌, ◌^◌, ◌≡◌, refl, ◌∙◌, List, [], ◌∷◌, Result, ok, err, panic, Status, invalid_gas,
  ◌-◌, subst, ltb, ltb→lt, Bool-cases, inl, inr, if◌then◌else◌, arith,
}
use beatoz_go.Base.Words.{add64, sub64, add256, slt64}

pub record GasPool : Type 1 where
  pub Pool : Type 0
  pub empty : Pool
  pub add_gas : Pool → ℕ → Result Pool
  pub sub_gas : Pool → ℕ → Result Pool
  pub gas : Pool → ℕ

-- The pool counts a uint64: an addition that would pass it panics, and a subtraction of more than is
-- there is an error.
pub record IsCounter (p : GasPool) : Type 0 where
  pub gas_empty : p.gas p.empty ≡ 0
  pub gas_fits : (x : p.Pool) → p.gas x < 2 ^ 64
  pub add_fits :
      (x : p.Pool) (n : ℕ)
      → p.gas x + n < 2 ^ 64
      → (y : p.Pool) × (p.add_gas x n ≡ ok y) × (p.gas y ≡ p.gas x + n)
  pub sub_fits :
      (x : p.Pool) (n : ℕ)
      → n ≤ p.gas x
      → (y : p.Pool) × (p.sub_gas x n ≡ ok y) × (p.gas y + n ≡ p.gas x)
  pub sub_short : (x : p.Pool) (n : ℕ) → p.gas x < n → p.sub_gas x n ≡ err invalid_gas

module _ (p : GasPool) where
  pub record BlockGas : Type 0 where
    pub block_gas_limit : ℕ
    pub block_gas_pool : p.Pool
    pub fee_sum : ℕ
    pub txs_cnt : ℕ

  -- setBlockGasLimit
  unfoldable pub set_block_gas_limit : ℕ → BlockGas → Result BlockGas
  set_block_gas_limit limit b = elim (p.add_gas p.empty limit) [
    | ok pool ↦ ok (record b { block_gas_limit = limit; block_gas_pool = pool })
    | err e ↦ err e
    | panic ↦ panic
  ]

  -- GetBlockGasUsed
  unfoldable pub get_block_gas_used : BlockGas → ℕ
  get_block_gas_used b = sub64 b.block_gas_limit (p.gas b.block_gas_pool)

  -- GetBlockGasRemained
  unfoldable pub get_block_gas_remained : BlockGas → ℕ
  get_block_gas_remained b = p.gas b.block_gas_pool

  -- UseBlockGas
  unfoldable pub use_block_gas : ℕ → BlockGas → Status × BlockGas
  use_block_gas gas b = elim (p.sub_gas b.block_gas_pool gas) [
    | ok pool ↦ (ok tt, record b { block_gas_pool = pool })
    | err e ↦ (err invalid_gas, b)
    | panic ↦ (panic, b)
  ]

  -- RefundBlockGas, with the panic of its check for debugging.
  unfoldable pub refund_block_gas : ℕ → BlockGas → Status × BlockGas
  refund_block_gas gas b = elim (p.add_gas b.block_gas_pool gas) [
    | ok pool ↦ (
      if slt64 b.block_gas_limit (p.gas pool) then panic else ok tt,
      record b { block_gas_pool = pool },
    )
    | err e ↦ (panic, b)
    | panic ↦ (panic, b)
  ]

  -- AddFee
  unfoldable pub add_fee : ℕ → BlockGas → BlockGas
  add_fee fee b = record b { fee_sum = add256 b.fee_sum fee }

  -- AddTxsCnt
  unfoldable pub add_txs_cnt : ℕ → BlockGas → BlockGas
  add_txs_cnt d b = record b { txs_cnt = add64 b.txs_cnt d }

  -- The gas that the transactions of a block use, one after the other; each failed use ends only its
  -- own transaction, as in postRunTrx.
  unfoldable pub use_all : List ℕ → BlockGas → BlockGas
  unfolding use_block_gas
  use_all [] b = b
  use_all (g ∷ gs) b = use_all gs (use_block_gas g b).1

-- The gas that a block's transactions use, of what remains: those that ask for more than that use
-- none.
abbrev pub accepted : List ℕ → ℕ → ℕ
accepted [] left = 0
accepted (g ∷ gs) left =
    let refused = accepted gs left in
    let taken = g + accepted gs (left - g) in if ltb left g then refused else taken

module _ (p : GasPool) (C : IsCounter p) where
  -- The pool never holds more than the limit.
  abbrev pub IsWithin : BlockGas p → Type 0
  IsWithin b = p.gas b.block_gas_pool ≤ b.block_gas_limit

  -- A use within what remains succeeds and takes exactly that from the remaining gas; a larger one
  -- fails and takes nothing.
  pub use_block_gas_exact :
      (g : ℕ) (b : BlockGas p)
      → let (r, b') = use_block_gas p g b in
        if ltb (get_block_gas_remained p b) g
        then (r ≡ err invalid_gas) × (b' ≡ b)
        else (r ≡ ok tt)
          × (get_block_gas_remained p b' + g ≡ get_block_gas_remained p b)
          × (b'.block_gas_limit ≡ b.block_gas_limit)
  unfolding use_block_gas get_block_gas_remained
  use_block_gas_exact g b = elim (Bool-cases (ltb (p.gas b.block_gas_pool) g)) [
    | inl short ↦
        rw (short, C.sub_short b.block_gas_pool g (ltb→lt _ _ short), use_block_gas) (refl, refl)
    | inr fits ↦
        let (y, e, f) = C.sub_fits b.block_gas_pool g (ground arith) in
        rw (fits, e, use_block_gas) (refl, f, refl)
  ]

  use_block_gas-IsWithin :
      (g : ℕ) (b : BlockGas p)
      → IsWithin b
      → IsWithin (use_block_gas p g b).1
        × ((use_block_gas p g b).1.block_gas_limit ≡ b.block_gas_limit)
  unfolding use_block_gas
  use_block_gas-IsWithin g b w = elim (Bool-cases (ltb (p.gas b.block_gas_pool) g)) [
    | inl short ↦ rw (C.sub_short b.block_gas_pool g (ltb→lt _ _ short), use_block_gas) (w, refl)
    | inr fits ↦
        let (y, e, f) = C.sub_fits b.block_gas_pool g (ground arith) in
        rw (e, use_block_gas) (omega (arith, f, w), refl)
  ]

  use_all-IsWithin :
      (gs : List ℕ) (b : BlockGas p)
      → IsWithin b
      → IsWithin (use_all p gs b) × ((use_all p gs b).block_gas_limit ≡ b.block_gas_limit)
  unfolding use_all
  use_all-IsWithin [] b w = (w, refl)
  use_all-IsWithin (g ∷ gs) b w =
      let (w', e) = use_block_gas-IsWithin g b w in
      let (w'', e') = use_all-IsWithin gs (use_block_gas p g b).1 w' in (w'', e' ∙ e)

  -- What the remaining gas loses to a list of uses.
  use_all_lem :
      (gs : List ℕ) (b : BlockGas p)
      → let taken = accepted gs (get_block_gas_remained p b) in
        let left = get_block_gas_remained p (use_all p gs b) in
        left + taken ≡ get_block_gas_remained p b
  unfolding use_all
  use_all_lem [] b = omega arith
  use_all_lem (g ∷ gs) b =
      let one = use_block_gas_exact g b in
      let ih = use_all_lem gs (use_block_gas p g b).1 in
      elim (Bool-cases (ltb (get_block_gas_remained p b) g)) [
        | inl short ↦ let same = (rw short at one).1 in rw (short, same) (rw same at ih)
        | inr fits ↦
            let (_, moved, _) = rw fits at one in
            let next = get_block_gas_remained p (use_block_gas p g b).1 in
            let gap : next ≡ get_block_gas_remained p b - g = omega (arith, moved) in
            rw (fits, ← gap) (omega (arith, ih, moved))
      ]

  -- Setting an int64 gas limit that is not negative on a block's context succeeds, and then, whatever
  -- gas the block's transactions ask for, the gas used is the sum of what was asked by those that did
  -- not ask for more than remained, the others having taken nothing, and the gas used and the gas
  -- remaining add up to the limit.
  pub block_gas_conserved :
      (limit : ℕ) (gs : List ℕ) (b : BlockGas p)
      → limit < 2 ^ 63
      → (b' : BlockGas p) × (set_block_gas_limit p limit b ≡ ok b')
        × (get_block_gas_remained p b' ≡ limit)
        × (get_block_gas_used p (use_all p gs b') ≡ accepted gs limit)
        × (get_block_gas_used p (use_all p gs b') + get_block_gas_remained p (use_all p gs b')
            ≡ limit)
  unfolding set_block_gas_limit get_block_gas_used get_block_gas_remained
  block_gas_conserved limit gs b h =
      let (y, e, f) = C.add_fits p.empty limit (omega (arith, C.gas_empty)) in
      let b' : BlockGas p = record b { block_gas_limit = limit; block_gas_pool = y } in
      let full : p.gas y ≡ limit = omega (arith, C.gas_empty, f) in
      let (w, l) = use_all-IsWithin gs b' (omega (arith, full)) in
      let lost : p.gas (use_all p gs b').block_gas_pool + accepted gs (p.gas y) ≡ p.gas y =
        use_all_lem gs b' in
      let used : p.gas (use_all p gs b').block_gas_pool + accepted gs limit ≡ limit =
        subst (λ n. p.gas (use_all p gs b').block_gas_pool + accepted gs n ≡ n) full lost in
      (
        b',
        rw (e, set_block_gas_limit) refl,
        full,
        omega (arith, w, l, h, used),
        omega (arith, w, l, h),
      )
