-- ===== src/Pn532/Commands/Sizes.antt =====
-- The sizes of what the commands return: the laws that reader.c relies on.
use pareader.Base.{
  ℕ, ◌+◌, ◌-◌, ◌≤◌, ◌≡◌, Bool, inl, inr, [], ◌∷◌, arith, Bytes, byte_at, take, drop, length,
  length-copy, length-take, length-drop, ltb, Bool-cases, Result, ok, err, and_then-eq-ok,
}
use pareader.Pn532.{TypeATarget, FelicaTarget, Poll, Pn532Laws, IsTypeA, IsFelica}
use pareader.Pn532.Bus.{Bus}
use pareader.Pn532.Commands.{
  command, block_response, raw_felica_response, type_a_response, felica_response, polled,
  pn532_poll_type_a, pn532_poll_felica, pn532_mifare_read_block, pn532_felica_transact, pn532_ops,
}

type_a_response-IsTypeA :
    (target : TypeATarget) (response : Bytes)
    → IsTypeA target
    → IsTypeA (type_a_response target response).target
unfolding type_a_response
type_a_response-IsTypeA target response h =
    ground
      (arith, length-copy target.uid (drop 6 response) (byte_at response 5), length-drop 6 response)

felica_response-IsFelica :
    (target : FelicaTarget) (response : Bytes)
    → IsFelica target
    → IsFelica (felica_response target response).target
unfolding felica_response
felica_response-IsFelica target response h = ground (
  arith,
  length-copy target.idm (drop 4 response) 8,
  length-drop 4 response,
  length-copy target.pmm (drop 12 response) 8,
  length-drop 12 response,
)

polled_target :
    {W T : Type 0} (P : T → Type 0) (read : Bytes → Poll T) (target : T) (found : Bool)
    (x : Result Bytes × W)
    → P target
    → ((response : Bytes) → P (read response).target)
    → P (polled read target found x).0.target
polled_target P read target found (ok response, w) h k = k response
polled_target P read target found (err e, w) h k = h

module _ {W : Type 0} (bus : Bus W) where
  read_block_size :
      (target number : ℕ) (w : W) (block : Bytes)
      → (pn532_mifare_read_block bus target number w).0 ≡ ok block
      → length block ≡ 16
  unfolding pn532_mifare_read_block block_response
  read_block_size target number w block h =
      let x = command bus 0x40 (target ∷ 0x30 ∷ number ∷ []) 20 w in
      let (response, c, k) = and_then-eq-ok x.0 x.1 block_response h in
      ground (arith, length-take 16 (drop 1 response), length-drop 1 response)

  transact_size :
      (target : ℕ) (request : Bytes) (n capacity : ℕ) (w : W) (response : Bytes)
      → (pn532_felica_transact bus target request n capacity w).0 ≡ ok response
      → length response ≤ capacity
  unfolding pn532_felica_transact raw_felica_response
  transact_size target request n capacity w response h = elim (Bool-cases (ltb 254 (n + 1))) [
    | inl long ↦ let h' = rw long at h in cc
    | inr short ↦
        let h' = rw short at h in
        let x = command bus 0x40 (target ∷ take n request) 255 w in
        let (raw, c, k) = and_then-eq-ok x.0 x.1 (raw_felica_response capacity) h' in
        ground (arith, length-take (length raw - 1) (drop 1 raw), length-drop 1 raw)
  ]

  -- The commands of pn532.c return what `Pn532Laws` says: a poll keeps the sizes of the target's
  -- arrays, a block has 16 bytes, and a FeliCa response fits its array.
  pub pn532_ops-Pn532Laws : Pn532Laws (pn532_ops bus)
  unfolding pn532_poll_type_a pn532_poll_felica
  pn532_ops-Pn532Laws = record {
    type_a_sizes = λ t found w h.
        polled_target IsTypeA (type_a_response t) t found _ h
          (λ response. type_a_response-IsTypeA t response h);
    felica_sizes = λ code t found w h.
        polled_target IsFelica (felica_response t) t found _ h
          (λ response. felica_response-IsFelica t response h);
    block_size = read_block_size;
    response_size = transact_size;
  }
