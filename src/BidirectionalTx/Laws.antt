-- ===== src/BidirectionalTx/Laws.antt =====
-- What a built transaction is, and which signatures stand for one another.
use contract_pinger.Common.{
  ℕ, ◌+◌, ◌-◌, ◌*◌, ◌≤◌, ◌<◌, ◌≡◌, refl, inl, inr, false, none, some, String, ltb, arith,
  Bool-cases, Option-cases, lt→ltb,
}
use contract_pinger.BidirectionalTx.{
  TxMode, eth_self_transfer, erc20_zero_transfer, dev, testnet, mainnet, Environment, chain_id,
  is_prefixed, with_hex_prefix, without_hex_prefix, Unsigned, BuiltTransaction, NodeAnswers,
  build_transaction, RsvSignature, attach_signature,
}

-- The prefix, given or not, is taken away.
pub without-with_hex_prefix :
    (v : String) → without_hex_prefix (with_hex_prefix v) ≡ without_hex_prefix v
unfolding with_hex_prefix without_hex_prefix
without-with_hex_prefix v = elim (Bool-cases (is_prefixed v)) [
  | inl given ↦ rw (given, given)
  | inr bare ↦ rw bare
]

module _ (finalize : Unsigned → RsvSignature → String)
    (recover : Unsigned → String → String → ℕ → String) where
  -- The forms in which the network reports a signature are equivalent: with or without the prefix
  -- of `r` and `s`, and with a recovery id of 0 or 1 or the same raised by 27.
  pub attach_equivalent :
      (unsigned : Unsigned) (r s : String) (v : ℕ)
      → v < 27
      → let short : RsvSignature = record { r = r; s = s; v = v } in
        let long : RsvSignature = record {
          r = with_hex_prefix r;
          s = with_hex_prefix s;
          v = v + 27;
        } in
        (attach_signature finalize recover unsigned short
          ≡ attach_signature finalize recover unsigned long)
        × ((attach_signature finalize recover unsigned short).1
            ≡ recover unsigned
                (with_hex_prefix (without_hex_prefix r))
                (with_hex_prefix (without_hex_prefix s))
                v)
  unfolding attach_signature
  attach_equivalent unsigned r s v h =
      let above : ltb (v + 27) 27 ≡ false = ground arith in
      let back : v + 27 - 27 ≡ v = omega arith in
      rw (lt→ltb v 27 h, above, without-with_hex_prefix r, without-with_hex_prefix s, back)
        (refl, refl)

-- The chain that an environment settles on: Ethereum's or Sepolia's.
abbrev pub own_chain : Environment → ℕ
own_chain mainnet = 1
own_chain dev = 11155111
own_chain testnet = 11155111

module _ (encode_transfer : String → ℕ → String) (serialize : Unsigned → String) where
  -- Whom a mode calls, with what, and the schema of what the call returns.
  abbrev pub Calls : TxMode → String → String → BuiltTransaction → Type 0
  Calls eth_self_transfer from erc20 t =
      (t.unsigned.to ≡ from)
      × (t.unsigned.data_of_call ≡ none)
      × (t.output_deserialization_schema ≡ "")
  Calls erc20_zero_transfer from erc20 t =
      (t.unsigned.to ≡ erc20)
      × (t.unsigned.data_of_call ≡ some (encode_transfer from 0))
      × (t.output_deserialization_schema ≡ "[{\"name\":\"\",\"type\":\"bool\"}]")

  -- What is built moves no ether and calls what its mode calls. It is bound to the chain of the
  -- environment and the node's nonce. Its gas is the estimate and a fifth, rounded down, its fees
  -- are the node's, and the cost that is checked against the balance is the most it can spend.
  pub record IsSound (environment : Environment) (mode : TxMode) (from erc20 : String)
      (nonce estimate max_fee priority : ℕ) (t : BuiltTransaction) : Type 0 where
    pub calls : Calls mode from erc20 t
    pub no_value : t.unsigned.value ≡ 0
    pub chain_bound : t.unsigned.chain ≡ own_chain environment
    pub nonce_signed : t.unsigned.nonce ≡ nonce
    pub nonce_told : t.nonce ≡ nonce
    pub signs_itself : t.rlp_encoded ≡ serialize t.unsigned
    pub covers : t.unsigned.gas * 100 ≤ estimate * 120
    pub nearly : estimate * 120 < t.unsigned.gas * 100 + 100
    pub fee_signed : t.unsigned.max_fee_per_gas ≡ max_fee
    pub priority_signed : t.unsigned.max_priority_fee_per_gas ≡ priority
    pub most : t.gas_cost_wei ≡ t.unsigned.value + t.unsigned.gas * t.unsigned.max_fee_per_gas

  own-chain_id : (environment : Environment) → chain_id environment ≡ own_chain environment
  own-chain_id dev = refl
  own-chain_id testnet = refl
  own-chain_id mainnet = refl

  build-Calls :
      (node : NodeAnswers) (environment : Environment) (mode : TxMode) (from erc20 : String)
      (t : BuiltTransaction)
      → build_transaction encode_transfer serialize node environment mode from erc20 ≡ some t
      → Calls mode from erc20 t
  unfolding build_transaction
  build-Calls node environment eth_self_transfer from erc20 t b =
      (ground arith, ground arith, ground arith)
  build-Calls node environment erc20_zero_transfer from erc20 t b =
      (ground arith, ground arith, ground arith)

  -- Where the node answers with a nonce, a fee and an estimate, a transaction is built, and it is
  -- sound for these.
  pub build-IsSound :
      (node : NodeAnswers) (environment : Environment) (mode : TxMode) (from erc20 : String)
      (nonce estimate max_fee : ℕ)
      → node.latest_nonce ≡ some nonce
      → node.gas_estimate ≡ some estimate
      → node.max_fee_per_gas ≡ some max_fee
      → (t : BuiltTransaction) × (build_transaction encode_transfer serialize node environment mode
            from erc20
          ≡ some t)
        × IsSound environment mode from erc20 nonce estimate max_fee node.max_priority_fee_per_gas t
  unfolding build_transaction
  build-IsSound node environment mode from erc20 nonce estimate max_fee n e f =
      elim (Option-cases
        (build_transaction encode_transfer serialize node environment mode from erc20)) [
          | inl refused ↦ absurd (ground (arith, n, e, f))
          | inr (t, b) ↦ (
            t,
            b,
            record {
              calls = build-Calls node environment mode from erc20 t b;
              no_value = ground arith;
              chain_bound = ground (arith, own-chain_id environment);
              nonce_signed = ground (arith, n);
              nonce_told = ground (arith, n);
              signs_itself = ground arith;
              covers = ground (arith, e);
              nearly = ground (arith, e);
              fee_signed = ground (arith, f);
              priority_signed = ground arith;
              most = ground arith;
            },
          )
        ]
