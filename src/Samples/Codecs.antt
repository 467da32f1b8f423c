-- ===== src/Samples/Codecs.antt =====
-- Texts for the stored types: an instance of `Codec` for each, by writing the parts in their order.
use blq_node.Base.{ℕ, zero, suc, ◌≡◌, refl}
use blq_node.Database.{Codec}
use blq_node.Primitives.{
  Transaction, TransactionAccessListItem, TransactionSignature, Receipt, LogEntry, BlockHeader,
  Block,
}
use blq_node.Storage.Blocks.{StoredReceipt, EvmAccountSnapshot, Json}
use blq_node.Storage.Generation.{GenerationManifest, GenerationStatus}
use blq_node.Samples.Serial.{Serial, number, ◌⊗◌, via, sequence, optional, codec, boolean, text}

abbrev header : Serial BlockHeader
header =
    via
      (λ h. (
        h.parent_hash,
        (
          h.number,
          (
            h.state_root,
            (
              h.transactions_root,
              (
                h.receipts_root,
                (
                  h.beneficiary,
                  (
                    h.difficulty_target,
                    (
                      h.base_fee_per_gas,
                      (
                        h.gas_limit,
                        (
                          h.gas_used,
                          (
                            h.timestamp_seconds,
                            (
                              h.pow_algorithm,
                              (h.pow_epoch, (h.extra_nonce, (h.mix_hash, h.nonce))),
                            ),
                          ),
                        ),
                      ),
                    ),
                  ),
                ),
              ),
            ),
          ),
        ),
      ))
      (λ (a, (b, (c, (d, (e, (f, (g, (h, (i, (j, (k, (l, (m, (n, (o, p))))))))))))))). record {
        parent_hash = a;
        number = b;
        state_root = c;
        transactions_root = d;
        receipts_root = e;
        beneficiary = f;
        difficulty_target = g;
        base_fee_per_gas = h;
        gas_limit = i;
        gas_used = j;
        timestamp_seconds = k;
        pow_algorithm = l;
        pow_epoch = m;
        extra_nonce = n;
        mix_hash = o;
        nonce = p;
      })
      (λ h. refl)
      (text ⊗ number ⊗ text ⊗ text ⊗ text ⊗ text ⊗ text ⊗ number ⊗ number ⊗ number ⊗ number ⊗ text
        ⊗ number ⊗ number ⊗ text ⊗ number)

abbrev item : Serial TransactionAccessListItem
item =
    via (λ i. (i.address, i.storage_keys)) (λ (a, b). record { address = a; storage_keys = b })
      (λ i. refl) (text ⊗ sequence text)

abbrev signature : Serial TransactionSignature
signature =
    via (λ x. (x.y_parity, (x.r, x.s))) (λ (a, (b, c)). record { y_parity = a; r = b; s = c })
      (λ x. refl) (boolean ⊗ text ⊗ text)

abbrev transaction : Serial Transaction
transaction =
    via
      (λ t. (
        t.chain_id,
        (
          t.transaction_type,
          (
            t.nonce,
            (
              t.from,
              (
                t.to,
                (
                  t.value,
                  (
                    t.gas_limit,
                    (
                      t.max_fee_per_gas,
                      (
                        t.max_priority_fee_per_gas,
                        (t.payload, (t.access_list, (t.signature, t.external_hash))),
                      ),
                    ),
                  ),
                ),
              ),
            ),
          ),
        ),
      ))
      (λ (a, (b, (c, (d, (e, (f, (g, (h, (i, (j, (k, (l, m)))))))))))). record {
        chain_id = a;
        transaction_type = b;
        nonce = c;
        from = d;
        to = e;
        value = f;
        gas_limit = g;
        max_fee_per_gas = h;
        max_priority_fee_per_gas = i;
        payload = j;
        access_list = k;
        signature = l;
        external_hash = m;
      })
      (λ t. refl)
      (number
        ⊗ number
        ⊗ number
        ⊗ text
        ⊗ optional text
        ⊗ number
        ⊗ number
        ⊗ number
        ⊗ number
        ⊗ text
        ⊗ sequence item
        ⊗ optional signature
        ⊗ optional text)

abbrev log : Serial LogEntry
log =
    via (λ l. (l.address, (l.topics, l.log_data)))
      (λ (a, (b, c)). record { address = a; topics = b; log_data = c }) (λ l. refl)
      (text ⊗ sequence text ⊗ text)

abbrev receipt : Serial Receipt
receipt =
    via (λ r. (r.transaction_hash, (r.success, (r.gas_used, (r.logs_root, r.logs)))))
      (λ (a, (b, (c, (d, e)))). record {
        transaction_hash = a;
        success = b;
        gas_used = c;
        logs_root = d;
        logs = e;
      })
      (λ r. refl) (text ⊗ boolean ⊗ number ⊗ text ⊗ sequence log)

abbrev block : Serial Block
block =
    via (λ b. (b.header, (b.transactions, b.receipts)))
      (λ (a, (b, c)). record { header = a; transactions = b; receipts = c }) (λ b. refl)
      (header ⊗ sequence transaction ⊗ sequence receipt)

abbrev stored_receipt : Serial StoredReceipt
stored_receipt =
    via (λ r. (r.receipt, (r.header, (r.transaction_index, r.transaction))))
      (λ (a, (b, (c, d))). record {
        receipt = a;
        header = b;
        transaction_index = c;
        transaction = d;
      })
      (λ r. refl) (receipt ⊗ header ⊗ number ⊗ transaction)

abbrev account : Serial EvmAccountSnapshot
account =
    via (λ a. (a.0, (a.1, (a.2, a.3)))) (λ (a, (b, (c, d))). (a, b, c, d)) (λ a. refl)
      (number ⊗ number ⊗ text ⊗ sequence (text ⊗ text))

instance abbrev pub sample_json : Json
sample_json = record {
  block = codec block;
  header = codec header;
  transaction = codec transaction;
  stored_receipt = codec stored_receipt;
  evm_snapshot = codec (sequence (text ⊗ account));
}

abbrev status_number : GenerationStatus → ℕ
status_number GenerationStatus.active = 0
status_number GenerationStatus.staging = 1
status_number GenerationStatus.verified = 2
status_number GenerationStatus.retired = 3
status_number GenerationStatus.failed = 4

abbrev status_of : ℕ → GenerationStatus
status_of zero = GenerationStatus.active
status_of (suc zero) = GenerationStatus.staging
status_of (suc (suc zero)) = GenerationStatus.verified
status_of (suc (suc (suc zero))) = GenerationStatus.retired
status_of (suc (suc (suc (suc n)))) = GenerationStatus.failed

abbrev status_lem : (x : GenerationStatus) → status_of (status_number x) ≡ x
status_lem GenerationStatus.active = refl
status_lem GenerationStatus.staging = refl
status_lem GenerationStatus.verified = refl
status_lem GenerationStatus.retired = refl
status_lem GenerationStatus.failed = refl

abbrev manifest : Serial GenerationManifest
manifest =
    via
      (λ m. (
        m.generation_id,
        (
          m.status,
          (
            m.canonical_height,
            (
              m.canonical_hash,
              (m.state_root, (m.profile_fingerprint, (m.finalized_height, m.replay_checkpoint))),
            ),
          ),
        ),
      ))
      (λ (a, (b, (c, (d, (e, (f, (g, h))))))). record {
        generation_id = a;
        status = b;
        canonical_height = c;
        canonical_hash = d;
        state_root = e;
        profile_fingerprint = f;
        finalized_height = g;
        replay_checkpoint = h;
      })
      (λ m. refl)
      (number
        ⊗ via status_number status_of status_lem number
        ⊗ number
        ⊗ text
        ⊗ text
        ⊗ text
        ⊗ number
        ⊗ optional number)

instance abbrev pub sample_manifests : Codec GenerationManifest
sample_manifests = codec manifest
