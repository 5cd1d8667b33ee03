-- ===== src/Examples/Sealing.antt =====
-- Chunks and wrapped keys under the toy cipher.
use arx_runa.Prelude.{ℕ, ◌≡◌, ◌⊎◌, ◌↔◌, refl, [], ◌∷◌, ◌++◌, Bytes, length, ok, arith, replicate}
use arx_runa.Crypto.Chunk.{encrypt_chunk, decrypt_chunk, nonce_len, decrypt_chunk-eq-ok_iff}
use arx_runa.Crypto.Chunk.Binding.{Collision, decrypt_chunk_binding}
use arx_runa.Crypto.WrapKey.{
  wrap_file_key, wrap_master_key_for_recovery, unwrap_master_key_from_recovery,
  unwrap_master_key-eq-ok_iff, length-wrap_file_key, key_len, wrapped_len,
}
use arx_runa.Examples.Toy.{toy, toy-IsAead, zeros}

abbrev nonce : Bytes
nonce = replicate 24 7

abbrev blob : Bytes
blob = nonce ++ ((1 ∷ 2 ∷ 3 ∷ []) ++ zeros 16)

sealed : encrypt_chunk toy nonce (1 ∷ 2 ∷ 3 ∷ []) (zeros 32) (zeros 16) 5 ≡ ok blob
unfolding encrypt_chunk
sealed = refl

abbrev wrapped : Bytes
wrapped = nonce ++ (zeros 32 ++ zeros 16)

wraps : wrap_file_key toy nonce (zeros 32) (zeros 16) (zeros 32) ≡ ok wrapped
unfolding wrap_file_key
wraps = refl

decrypt_chunk-eq-ok_iff_example :
    (decrypt_chunk toy (record { inner = blob }) (zeros 32) (zeros 16) 5 ≡ ok (1 ∷ 2 ∷ 3 ∷ [])) ↔ (
      (n : Bytes) × (length n ≡ nonce_len)
      × (encrypt_chunk toy n (1 ∷ 2 ∷ 3 ∷ []) (zeros 32) (zeros 16) 5 ≡ ok blob))
decrypt_chunk-eq-ok_iff_example =
    decrypt_chunk-eq-ok_iff toy toy-IsAead (zeros 32) (zeros 16) 5 blob (1 ∷ 2 ∷ 3 ∷ [])

opens : decrypt_chunk toy (record { inner = blob }) (zeros 32) (zeros 16) 5 ≡ ok (1 ∷ 2 ∷ 3 ∷ [])
opens =
    (decrypt_chunk-eq-ok_iff toy toy-IsAead (zeros 32) (zeros 16) 5 blob (1 ∷ 2 ∷ 3 ∷ [])).1
      (nonce, refl, sealed)

decrypt_chunk_binding_example :
    ((zeros 32 ≡ zeros 32)
      × (zeros 16 ≡ zeros 16)
      × (◌≡◌ {A = ℕ} 5 5)
      × (◌≡◌ {A = Bytes} (1 ∷ 2 ∷ 3 ∷ []) (1 ∷ 2 ∷ 3 ∷ [])))
    ⊎ Collision toy
decrypt_chunk_binding_example =
    decrypt_chunk_binding toy toy-IsAead (zeros 32) (zeros 32) (zeros 16) (zeros 16) nonce
      (1 ∷ 2 ∷ 3 ∷ []) (1 ∷ 2 ∷ 3 ∷ []) blob 5 5 refl refl (omega arith) (omega arith) sealed opens

unwrap_master_key-eq-ok_iff_example :
    (unwrap_master_key_from_recovery toy wrapped (zeros 32) (zeros 16) ≡ ok (zeros 32)) ↔ (
      (n : Bytes) × (length n ≡ 24)
      × (length (zeros 32) ≡ key_len)
      × (wrap_master_key_for_recovery toy n (zeros 32) (zeros 32) (zeros 16) ≡ ok wrapped))
unwrap_master_key-eq-ok_iff_example =
    unwrap_master_key-eq-ok_iff toy toy-IsAead wrapped (zeros 32) (zeros 16) (zeros 32) refl

length-wrap_file_key_example : length wrapped ≡ wrapped_len
length-wrap_file_key_example =
    length-wrap_file_key toy toy-IsAead nonce (zeros 32) (zeros 16) (zeros 32) wrapped refl refl
      wraps
