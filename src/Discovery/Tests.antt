-- ===== src/Discovery/Tests.antt =====
-- Runs of the discovery frames, and the theorems there.
use esp32_remote_boot.Prelude.{
  ◌≡◌, ◌↔◌, refl, true, none, some, [], ◌∷◌, ◌++◌, same, replicate, Bytes, value, arith,
}
use esp32_remote_boot.Discovery.{query, valid_query, reply, valid_reply, zero_bytes}
use esp32_remote_boot.Discovery.Frames.{IsQuery, valid_query_iff}
use esp32_remote_boot.Discovery.Replies.{IsReply, valid_reply_iff}

abbrev demo_nonce : Bytes
demo_nonce = replicate 16 7

abbrev demo_id : Bytes
demo_id = replicate 16 9

abbrev demo_ip : Bytes
demo_ip = 192 ∷ 168 ∷ 1 ∷ 20 ∷ []

abbrev demo_key : Bytes
demo_key = 4 ∷ replicate 64 3

abbrev demo_query : Bytes
demo_query = b'R' ∷ b'B' ∷ b'D' ∷ b'1' ∷ 1 ∷ 0 ∷ 0 ∷ 40 ∷ (demo_nonce ++ demo_id)

abbrev demo_reply : Bytes
demo_reply =
    b'R'
    ∷ b'B'
    ∷ b'D'
    ∷ b'1'
    ∷ 2
    ∷ 0
    ∷ 0
    ∷ 177
    ∷ (demo_nonce ++ (demo_id ++ (demo_ip ++ (0 ∷ 80 ∷ 0 ∷ 81 ∷ (demo_key ++ replicate 64 0)))))

query_demo : query demo_nonce demo_id ≡ value demo_query
unfolding query
query_demo = refl

valid_query_demo : valid_query demo_query demo_id ≡ value true
unfolding valid_query same
valid_query_demo = refl

reply_demo : reply demo_nonce demo_id demo_ip demo_key ≡ value demo_reply
unfolding reply
reply_demo = refl

valid_reply_demo :
    valid_reply demo_reply (some demo_nonce) (some demo_id) none (some demo_ip) 80 81 ≡ value true
unfolding valid_reply same zero_bytes
valid_reply_demo = refl

valid_query_iff_example : (valid_query demo_query demo_id ≡ value true) ↔ IsQuery demo_query demo_id
valid_query_iff_example = valid_query_iff demo_query demo_id (omega arith) refl

valid_reply_iff_example :
    (valid_reply demo_reply (some demo_nonce) (some demo_id) none (some demo_ip) 80 81 ≡ value true)
    ↔ IsReply demo_reply demo_nonce (some demo_id) none demo_ip 80 81
valid_reply_iff_example =
    valid_reply_iff demo_reply demo_nonce (some demo_id) none demo_ip 80 81 (omega arith) refl refl
      tt refl
