-- ===== src/Rbdiscover/Tests.antt =====
-- Runs of the discovery client, and the theorems there.
use esp32_remote_boot.Rbdiscover.Encoding.{signature_der}
use esp32_remote_boot.Rbdiscover.Encoding.Der.{IsInteger, signature_der-IsInteger}
use esp32_remote_boot.Prelude.{
  ◌≤◌, ◌≡◌, refl, some, List, [], ◌∷◌, ◌++◌, same, length, replicate, drop, Bytes, value, arith,
  ◌+◌, take,
}
use esp32_remote_boot.Rbdiscover.Dns.{
  dns_u16, lower, label_text, dns_name_from, dns_name, ipv4_unicast, skip_questions, read_records,
  answer_header, mdns_address, hex_pairs, service_prefix, local_text, mdns_query,
}
use esp32_remote_boot.Rbdiscover.Dns.Names.{NameAt, AllLabels, joined, dns_name-NameAt}
use esp32_remote_boot.Rbdiscover.Dns.Answers.{Answer, Packet, mdns_address-Answer}
use esp32_remote_boot.Rbdiscover.Dns.Query.{dns_name-mdns_query}
use esp32_remote_boot.Rbdiscover.Encoding.{hex}

-- an answer for a.local, with the address 10.0.0.7
abbrev demo_packet : Bytes
demo_packet =
    0 ∷ 0 ∷ 0x84 ∷ 0 ∷ 0 ∷ 0 ∷ 0 ∷ 1 ∷ 0 ∷ 0 ∷ 0 ∷ 0 ∷ 1 ∷ b'A' ∷ 5 ∷ b'l' ∷ b'o' ∷ b'c' ∷ b'a'
    ∷ b'l' ∷ 0 ∷ 0 ∷ 1 ∷ 0x80 ∷ 1 ∷ 0 ∷ 0 ∷ 0 ∷ 120 ∷ 0 ∷ 4 ∷ 10 ∷ 0 ∷ 0 ∷ 7 ∷ []

abbrev demo_host : Bytes
demo_host = b'a' ∷ b'.' ∷ local_text

abbrev demo_id : Bytes
demo_id = replicate 16 171

dns_name_demo : dns_name demo_packet 12 ≡ value (some (demo_host, 21))
unfolding dns_name dns_name_from label_text lower
dns_name_demo = refl

mdns_address_demo : mdns_address demo_packet demo_host ≡ value (some (10 ∷ 0 ∷ 0 ∷ 7 ∷ []))
unfolding mdns_address answer_header dns_u16 skip_questions read_records dns_name dns_name_from
    label_text lower same ipv4_unicast
mdns_address_demo = refl

mdns_address-Answer_example :
    Answer demo_packet demo_host (10 ∷ 0 ∷ 0 ∷ 7 ∷ [])
    × Packet demo_packet demo_host (10 ∷ 0 ∷ 0 ∷ 7 ∷ [])
    × (12 ≤ length demo_packet)
    × (length demo_packet ≤ 512)
mdns_address-Answer_example =
    mdns_address-Answer demo_packet demo_host (10 ∷ 0 ∷ 0 ∷ 7 ∷ []) mdns_address_demo

dns_name-NameAt_example :
    (ls : List Bytes) × NameAt demo_packet 12 ls × AllLabels ls × (demo_host ≡ joined [] ls)
dns_name-NameAt_example = dns_name-NameAt demo_packet 12 demo_host 21 (omega arith) dns_name_demo

dns_name-mdns_query_example :
    (query : Bytes) × (mdns_query demo_id ≡ value query)
    × (length query ≡ 48)
    × (dns_name query 12
        ≡ value (some (service_prefix ++ (hex_pairs (drop 10 demo_id) ++ (b'.' ∷ local_text)), 44)))
dns_name-mdns_query_example = dns_name-mdns_query demo_id (omega arith) refl

hex_demo : hex (b'A' ∷ b'b' ∷ b'0' ∷ b'7' ∷ []) 2 ≡ some (0xab ∷ 0x07 ∷ [])
unfolding hex
hex_demo = refl

signature_der-IsInteger_example :
    (x : Bytes) × (y : Bytes) × (signature_der (replicate 64 200)
      ≡ value (0x30 ∷ (4 + length x + length y) ∷ 0x02 ∷ length x ∷ (x ++ (0x02 ∷ length y ∷ y))))
    × IsInteger x (take 32 (replicate 64 200))
    × IsInteger y (drop 32 (replicate 64 200))
    × (6 + length x + length y ≤ 72)
signature_der-IsInteger_example = signature_der-IsInteger (replicate 64 200) refl
