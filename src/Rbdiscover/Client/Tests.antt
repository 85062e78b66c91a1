-- ===== src/Rbdiscover/Client/Tests.antt =====
-- Runs of the discovery attempt, and the theorems there.
use esp32_remote_boot.Prelude.{
  ℕ, ◌+◌, ◌-◌, ◌/◌, ◌%◌, ◌^◌, ◌≤◌, ◌<◌, ◌≡◌, ◌≢◌, ◌⊎◌, refl, true, false, Option, none, some, List,
  [], ◌∷◌, ◌++◌, same, length, replicate, Bytes, value, arith,
}
use esp32_remote_boot.Discovery.{query, zero_bytes}
use esp32_remote_boot.Rbdiscover.Dns.{
  dns_u16, lower, label_text, dns_name_from, dns_name, ipv4_unicast, skip_questions, read_records,
  answer_header, mdns_address, local_text, mdns_query,
}
use esp32_remote_boot.Rbdiscover.Dns.Answers.{Answer}
use esp32_remote_boot.Rbdiscover.Encoding.{hex, signature_der}
use esp32_remote_boot.Rbdiscover.Client.{
  Code, success, timed_out, Attempt, Action, Route, send, start_timer, close, store, is_due,
  send_round, retry, Crypto, verify, Source, bytes_at, reply_matches, deliver_candidate, deliver,
  Platform, budget, discover, running, zero_address,
}
use esp32_remote_boot.Rbdiscover.Client.Timing.{retry-timer}
use esp32_remote_boot.Rbdiscover.Client.Deliver.{
  IsAccepted, published, deliver-IsAccepted, deliver_candidate-cases,
}
use esp32_remote_boot.Rbdiscover.Client.Start.{IsReady, discover-IsReady}

abbrev demo_nonce : Bytes
demo_nonce = replicate 16 7

abbrev demo_id : Bytes
demo_id = replicate 16 0x99

abbrev demo_ip : Bytes
demo_ip = 192 ∷ 168 ∷ 1 ∷ 20 ∷ []

abbrev demo_key : Bytes
demo_key = 4 ∷ replicate 64 0x33

abbrev demo_query : Bytes
demo_query = b'R' ∷ b'B' ∷ b'D' ∷ b'1' ∷ 1 ∷ 0 ∷ 0 ∷ 40 ∷ (demo_nonce ++ demo_id)

abbrev demo_reply : Bytes
demo_reply =
    b'R'
    ∷ b'B'
    ∷ b'D'
    ∷ b'1'
    ∷ 2
    ∷ 0
    ∷ 0
    ∷ 177
    ∷ (demo_nonce ++ (demo_id ++ (demo_ip ++ (0 ∷ 80 ∷ 0 ∷ 81 ∷ (demo_key ++ replicate 64 1)))))

abbrev demo_host : Bytes
demo_host = b'a' ∷ b'.' ∷ local_text

-- an attempt that has sent its first round
abbrev demo_attempt : Attempt
demo_attempt = record {
  device_id = demo_id;
  public_key = demo_key;
  cache = 192 ∷ 168 ∷ 1 ∷ 9 ∷ [];
  local = 192 ∷ 168 ∷ 1 ∷ 2 ∷ [];
  nonce = demo_nonce;
  query = demo_query;
  deadline = 1000;
  started = true;
  round = 1;
  candidate = zero_address;
  candidates = 0;
  hostname = demo_host;
  dns_query = [];
}

abbrev demo_route : Route
demo_route = record {
  address = 192 ∷ 168 ∷ 1 ∷ 2 ∷ [];
  netmask = 255 ∷ 255 ∷ 255 ∷ 0 ∷ [];
  gateway = zero_address;
  netdev = 0;
}

abbrev demo_crypto : Crypto
demo_crypto = record { sha256 = λ m. m; verifies = λ k d s. true }

abbrev demo_stored : Option Bytes → Code
demo_stored _ = success

abbrev demo_source : Option Source
demo_source = some (record { inet = true; port = 49192; address = demo_ip })

deliver_demo :
    deliver demo_crypto demo_stored demo_attempt demo_reply demo_source 10 20
    ≡ value (demo_attempt, store (some demo_ip) ∷ close success ∷ [])
unfolding deliver is_due reply_matches bytes_at same verify signature_der ipv4_unicast
deliver_demo = refl

zero_bytes_demo : zero_bytes demo_id ≡ false
unfolding zero_bytes
zero_bytes_demo = refl

deliver-IsAccepted_example :
    (published (store (some demo_ip) ∷ close success ∷ []) ≡ [])
    ⊎ ((a : Bytes) × (◌≡◌ {A = List Action}
          (store (some demo_ip) ∷ close success ∷ [])
          (store (some a) ∷ close (demo_stored (some a)) ∷ []))
        × IsAccepted demo_crypto demo_attempt demo_reply demo_source 10 20 a)
deliver-IsAccepted_example =
    deliver-IsAccepted demo_crypto demo_stored demo_attempt demo_reply demo_source 10 20
      demo_attempt (store (some demo_ip) ∷ close success ∷ []) refl zero_bytes_demo deliver_demo

-- an answer for a.local, with the address 10.0.0.7
abbrev demo_packet : Bytes
demo_packet =
    0 ∷ 0 ∷ 0x84 ∷ 0 ∷ 0 ∷ 0 ∷ 0 ∷ 1 ∷ 0 ∷ 0 ∷ 0 ∷ 0 ∷ 1 ∷ b'A' ∷ 5 ∷ b'l' ∷ b'o' ∷ b'c' ∷ b'a'
    ∷ b'l' ∷ 0 ∷ 0 ∷ 1 ∷ 0x80 ∷ 1 ∷ 0 ∷ 0 ∷ 0 ∷ 120 ∷ 0 ∷ 4 ∷ 10 ∷ 0 ∷ 0 ∷ 7 ∷ []

abbrev found_attempt : Attempt
found_attempt = record demo_attempt { candidate = 10 ∷ 0 ∷ 0 ∷ 7 ∷ []; candidates = 1 }

deliver_candidate_demo :
    deliver_candidate demo_attempt demo_packet
    ≡ value (found_attempt, send (10 ∷ 0 ∷ 0 ∷ 7 ∷ []) 49192 demo_query none ∷ [])
unfolding deliver_candidate mdns_address answer_header dns_u16 skip_questions read_records dns_name
    dns_name_from label_text lower same ipv4_unicast
deliver_candidate_demo = refl

deliver_candidate-cases_example :
    ((found_attempt ≡ demo_attempt)
      × (◌≡◌ {A = List Action} (send (10 ∷ 0 ∷ 0 ∷ 7 ∷ []) 49192 demo_query none ∷ []) []))
    ⊎ ((a : Bytes) × Answer demo_packet demo_host a
        × (a ≢ zero_address)
        × (0 < 4)
        × (found_attempt ≡ record demo_attempt { candidate = a; candidates = 0 + 1 })
        × (◌≡◌ {A = List Action}
            (send (10 ∷ 0 ∷ 0 ∷ 7 ∷ []) 49192 demo_query none ∷ [])
            (send a 49192 demo_query none ∷ [])))
deliver_candidate-cases_example =
    deliver_candidate-cases demo_attempt demo_packet found_attempt
      (send (10 ∷ 0 ∷ 0 ∷ 7 ∷ []) 49192 demo_query none ∷ []) deliver_candidate_demo

send_round_demo : length (send_round demo_attempt (demo_route ∷ [])).1 ≡ 4
unfolding send_round same
send_round_demo = refl

retry_demo : retry 18 demo_attempt 995 ≡ start_timer 5 ∷ []
unfolding retry
retry_demo = refl

retry-timer_example :
    ((is_due 995 1000 ≡ true) × (retry 18 demo_attempt 995 ≡ close timed_out ∷ []))
    ⊎ ((is_due 995 1000 ≡ false)
        × ((t : ℕ) × (retry 18 demo_attempt 995 ≡ start_timer t ∷ [])
            × (t ≤ 18 / 2)
            × (t ≤ (1000 + 2 ^ 64 - 995) % 2 ^ 64)
            × (2 ≤ 18 → 0 < t)
            × ((t ≡ 18 / 2) ⊎ ((995 + t) % 2 ^ 64 ≡ 1000))))
retry-timer_example = retry-timer 18 demo_attempt 995 (omega arith) (omega arith)

abbrev demo_platform : Platform
demo_platform = record {
  ticks_per_sec = 18;
  allocates = true;
  inet_aton = λ text. some (192 ∷ 168 ∷ 1 ∷ 9 ∷ []);
  random = some demo_nonce;
  stored = demo_stored;
  opened = success;
}

abbrev demo_id_hex : Bytes
demo_id_hex = replicate 32 b'9'

abbrev demo_key_hex : Bytes
demo_key_hex = b'0' ∷ b'4' ∷ replicate 128 b'3'

abbrev begun_attempt : Attempt
begun_attempt = record demo_attempt {
  deadline = 190;
  started = false;
  round = 0;
  hostname =
      b'r'
      ∷ b'e'
      ∷ b'm'
      ∷ b'o'
      ∷ b't'
      ∷ b'e'
      ∷ b'-'
      ∷ b'b'
      ∷ b'o'
      ∷ b'o'
      ∷ b't'
      ∷ b'-'
      ∷ (replicate 12 b'9' ++ (b'.' ∷ local_text));
  dns_query =
      0
      ∷ 0
      ∷ 0
      ∷ 0
      ∷ 0
      ∷ 1
      ∷ 0
      ∷ 0
      ∷ 0
      ∷ 0
      ∷ 0
      ∷ 0
      ∷ 24
      ∷ b'r'
      ∷ b'e'
      ∷ b'm'
      ∷ b'o'
      ∷ b't'
      ∷ b'e'
      ∷ b'-'
      ∷ b'b'
      ∷ b'o'
      ∷ b'o'
      ∷ b't'
      ∷ b'-'
      ∷ (replicate 12 b'9' ++ (5 ∷ (local_text ++ (0 ∷ 0 ∷ 1 ∷ 0x80 ∷ 1 ∷ []))));
}

discover_demo :
    discover demo_platform 100 (demo_route ∷ []) demo_id_hex demo_key_hex [] 5000
    ≡ value (running begun_attempt (store none ∷ start_timer 0 ∷ []))
unfolding discover hex ipv4_unicast mdns_query query same
discover_demo = refl

discover-IsReady_example :
    IsReady demo_platform demo_id_hex demo_key_hex [] begun_attempt
    × (190 ≡ (100 + budget 18 5000) % 2 ^ 64)
    × (false ≡ false)
    × (begun_attempt.round ≡ 0)
    × (begun_attempt.candidates ≡ 0)
    × (◌≡◌ {A = List Action} (store none ∷ start_timer 0 ∷ []) (store none ∷ start_timer 0 ∷ []))
discover-IsReady_example =
    discover-IsReady demo_platform 100 (demo_route ∷ []) demo_id_hex demo_key_hex [] 5000
      begun_attempt (store none ∷ start_timer 0 ∷ []) (omega arith) discover_demo
