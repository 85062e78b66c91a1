-- ===== src/Rbdiscover/Dns/Query.antt =====
-- The query that the client sends, read by the parser for answers.
use esp32_remote_boot.Prelude.{
  ℕ, suc, ◌+◌, ◌/◌, ◌%◌, ◌≤◌, ◌<◌, ◌≡◌, refl, sym, ap, ◌∙◌, some, [], ◌∷◌, ◌++◌, length, drop,
  Bytes, AllBytes, value, read, slice, arith,
}
use esp32_remote_boot.Rbdiscover.Dns.{
  hex_char, hex_pairs, service_prefix, local_text, mdns_query, dns_name, dns_name_from, label_text,
  lower, append_label, dot_size,
}

label_text-hex_char :
    (d : ℕ) (cs t : Bytes)
    → d < 16
    → label_text cs ≡ some t
    → label_text (hex_char d ∷ cs) ≡ some (hex_char d ∷ t)
unfolding label_text hex_char
label_text-hex_char d cs t h e = ground arith

-- Hexadecimal digits are small letters and digits: a label of them is its own text.
label_text-hex_pairs : (bs : Bytes) → AllBytes bs → label_text (hex_pairs bs) ≡ some (hex_pairs bs)
unfolding hex_pairs
label_text-hex_pairs [] h = unfold label_text in refl
label_text-hex_pairs (b ∷ bs) h =
    label_text-hex_char (b / 16) (hex_char (b % 16) ∷ hex_pairs bs) _ (omega arith)
      (label_text-hex_char (b % 16) (hex_pairs bs) _ (omega arith) (label_text-hex_pairs bs h.1))

first_label :
    (bs : Bytes)
    → AllBytes bs
    → label_text (service_prefix ++ hex_pairs bs) ≡ some (service_prefix ++ hex_pairs bs)
unfolding label_text
first_label bs h = ground (arith, label_text-hex_pairs bs h)

-- the name that the query asks for, with its length bytes
abbrev query_bytes : Bytes → Bytes
query_bytes suffix =
    0
    ∷ 0
    ∷ 0
    ∷ 0
    ∷ 0
    ∷ 1
    ∷ 0
    ∷ 0
    ∷ 0
    ∷ 0
    ∷ 0
    ∷ 0
    ∷ 24
    ∷ (service_prefix ++ (hex_pairs suffix ++ (5 ∷ (local_text ++ (0 ∷ 0 ∷ 1 ∷ 0x80 ∷ 1 ∷ [])))))

dns_name_from_label :
    (s : ℕ) (p : Bytes) (pos : ℕ) (out : Bytes) (end len : ℕ) (raw t : Bytes)
    → read p pos ≡ value len
    → slice p (pos + 1) len ≡ value raw
    → label_text raw ≡ some t
    → (0 < len)
      × (len < 64)
      × (pos < length p)
      × (pos + 1 + len ≤ length p)
      × (len + dot_size out + length out ≤ 253)
    → dns_name_from (suc s) p pos out end
      ≡ dns_name_from s p (pos + 1 + len) (append_label out t) end
unfolding dns_name_from
dns_name_from_label s p pos out end len raw t r c l h = ground arith

dns_name_from_root :
    (s : ℕ) (p : Bytes) (pos : ℕ) (out : Bytes)
    → read p pos ≡ value 0
    → pos < length p
    → dns_name_from (suc s) p pos out 0 ≡ value (some (out, pos + 1))
unfolding dns_name_from
dns_name_from_root s p pos out r h = ground arith

dns_name-query_bytes :
    (a b c d e f : ℕ)
    → AllBytes (a ∷ b ∷ c ∷ d ∷ e ∷ f ∷ [])
    → dns_name (query_bytes (a ∷ b ∷ c ∷ d ∷ e ∷ f ∷ [])) 12
      ≡ value (
          some
            ((service_prefix ++ hex_pairs (a ∷ b ∷ c ∷ d ∷ e ∷ f ∷ [])) ++ (b'.' ∷ local_text), 44))
unfolding dns_name hex_pairs
dns_name-query_bytes a b c d e f h =
    let suffix : Bytes = a ∷ b ∷ c ∷ d ∷ e ∷ f ∷ [] in
    let p = query_bytes suffix in
    let text = service_prefix ++ hex_pairs suffix in
    dns_name_from_label 127 p 12 [] 0 24 text text refl refl (first_label suffix h) (omega arith)
    ∙ dns_name_from_label 126 p 37 text 0 5 local_text local_text refl refl
        (unfold label_text lower in refl) (omega arith)
    ∙ dns_name_from_root 125 p 43 (text ++ (b'.' ∷ local_text)) refl (omega arith)

-- The parser reads, in the client's own query, the name remote-boot-<suffix>.local, whose suffix is
-- the last six bytes of the device identifier in small hexadecimal digits. The query is 48 bytes.
pub dns_name-mdns_query :
    (id : Bytes)
    → AllBytes id
    → length id ≡ 16
    → (query : Bytes) × (mdns_query id ≡ value query)
      × (length query ≡ 48)
      × (dns_name query 12
          ≡ value (some (service_prefix ++ (hex_pairs (drop 10 id) ++ (b'.' ∷ local_text)), 44)))
unfolding mdns_query
dns_name-mdns_query (a0 ∷ a1 ∷ a2 ∷ a3 ∷ a4 ∷ a5 ∷ a6 ∷ a7 ∷ a8 ∷ a9 ∷ a ∷ b ∷ c ∷ d ∷ e ∷ f ∷ []) h
      l =
    (
      query_bytes (a ∷ b ∷ c ∷ d ∷ e ∷ f ∷ []),
      refl,
      unfold hex_pairs in refl,
      dns_name-query_bytes a b c d e f (omega arith),
    )
dns_name-mdns_query _ h l = absurd (omega arith)

-- the label that the client takes as its hostname
pub slice-mdns_query :
    (id query : Bytes)
    → length id ≡ 16
    → mdns_query id ≡ value query
    → slice query 13 24 ≡ value (service_prefix ++ hex_pairs (drop 10 id))
unfolding mdns_query hex_pairs
slice-mdns_query (a0 ∷ a1 ∷ a2 ∷ a3 ∷ a4 ∷ a5 ∷ a6 ∷ a7 ∷ a8 ∷ a9 ∷ a ∷ b ∷ c ∷ d ∷ e ∷ f ∷ [])
      query l h =
    let found : query_bytes (a ∷ b ∷ c ∷ d ∷ e ∷ f ∷ []) ≡ query = ground arith in
    let computed : slice (query_bytes (a ∷ b ∷ c ∷ d ∷ e ∷ f ∷ [])) 13 24
        ≡ value (service_prefix ++ hex_pairs (a ∷ b ∷ c ∷ d ∷ e ∷ f ∷ [])) =
      refl in
    ap (λ t. slice t 13 24) (sym found) ∙ computed
slice-mdns_query _ query l h = absurd (omega arith)
