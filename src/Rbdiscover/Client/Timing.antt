-- ===== src/Rbdiscover/Client/Timing.antt =====
-- The rounds of packets and the timer: `rbdiscover_send`, `rbdiscover_retry`,
-- `rbdiscover_window_changed` and `rbdiscover_expired`.
use esp32_remote_boot.Prelude.{
  ℕ, zero, suc, ◌+◌, ◌-◌, ◌*◌, ◌/◌, ◌%◌, ◌^◌, ◌≤◌, ◌<◌, ◌≡◌, ◌⊎◌, refl, true, false, none, List, [],
  ◌∷◌, ◌++◌, inl, inr, Bool-cases, ltb, length, length-append, arith,
}
use esp32_remote_boot.Rbdiscover.Client.{
  timed_out, Attempt, Action, Route, send, start_timer, close, is_due, route_sends, routes_sends,
  send_round, retry, mdns_group,
}

-- What a round may send: the query to port 49192, or the DNS query to the mDNS group at port 5353.
abbrev pub IsPacket : Attempt → Action → Type 0
IsPacket rb (send a port x via) =
    ((port ≡ 49192) × (x ≡ rb.query)) ⊎ ((port ≡ 5353) × (x ≡ rb.dns_query) × (a ≡ mdns_group))
IsPacket rb _ = ⊥

abbrev pub ArePackets : Attempt → List Action → Type 0
ArePackets rb [] = Unit {0}
ArePackets rb (x ∷ xs) = IsPacket rb x × ArePackets rb xs

ArePackets-append :
    (rb : Attempt) (xs ys : List Action)
    → ArePackets rb xs
    → ArePackets rb ys
    → ArePackets rb (xs ++ ys)
ArePackets-append rb [] ys h k = k
ArePackets-append rb (x ∷ xs) ys h k = (h.0, ArePackets-append rb xs ys h.1 k)

route_sends-ArePackets :
    (rb : Attempt) (r : Route) → ArePackets rb (route_sends rb r) × (length (route_sends rb r) ≤ 3)
unfolding route_sends
route_sends-ArePackets rb r = ground arith

routes_sends-ArePackets :
    (left : ℕ) (rb : Attempt) (rs : List Route)
    → ArePackets rb (routes_sends left rb rs) × (length (routes_sends left rb rs) ≤ 3 * left)
unfolding routes_sends
routes_sends-ArePackets zero rb rs = (tt, omega arith)
routes_sends-ArePackets (suc left) rb [] = (tt, omega arith)
routes_sends-ArePackets (suc left) rb (r ∷ rs) =
    let (one, few) = route_sends-ArePackets rb r in
    let (more, bound) = routes_sends-ArePackets left rb rs in
    (
      ArePackets-append rb (route_sends rb r) (routes_sends left rb rs) one more,
      omega (arith, few, bound, length-append (route_sends rb r) (routes_sends left rb rs)),
    )

-- A round counts itself and changes nothing else. The first round sends the query to the cached
-- address only. A round sends at most 26 packets, each the attempt's query to port 49192 or its DNS
-- query to the mDNS group and port.
pub send_round-ArePackets :
    (rb : Attempt) (routes : List Route)
    → ((send_round rb routes).0 ≡ record rb { round = (rb.round + 1) % 2 ^ 32 })
      × (rb.round ≡ 0 → (send_round rb routes).1 ≡ send rb.cache 49192 rb.query none ∷ [])
      × ArePackets rb (send_round rb routes).1
      × (length (send_round rb routes).1 ≤ 26)
unfolding send_round
send_round-ArePackets rb routes = (refl, (λ z. ground (arith, z)), all_packets, few)
  where
    behind : ArePackets rb (routes_sends 8 rb routes) × (length (routes_sends 8 rb routes) ≤ 24)
    behind = routes_sends-ArePackets 8 rb routes

    all_packets : ArePackets rb (send_round rb routes).1
    all_packets = ground (arith, behind.0)

    few : length (send_round rb routes).1 ≤ 26
    few = ground (arith, behind.1)

-- The clock and the deadline are 64-bit and wrap around. When the deadline has passed, the retry
-- ends the attempt with `timed_out`. Else it starts one timer: at most half a second, never past the
-- deadline, at once only if a tick is longer than half a second, and when it is shorter than half a
-- second it ends exactly at the deadline.
pub retry-timer :
    (ticks : ℕ) (rb : Attempt) (now : ℕ)
    → now < 2 ^ 64
    → rb.deadline < 2 ^ 64
    → ((is_due now rb.deadline ≡ true) × (retry ticks rb now ≡ close timed_out ∷ []))
      ⊎ ((is_due now rb.deadline ≡ false)
          × ((t : ℕ) × (retry ticks rb now ≡ start_timer t ∷ [])
              × (t ≤ ticks / 2)
              × (t ≤ (rb.deadline + 2 ^ 64 - now) % 2 ^ 64)
              × (2 ≤ ticks → 0 < t)
              × ((t ≡ ticks / 2) ⊎ ((now + t) % 2 ^ 64 ≡ rb.deadline))))
unfolding retry is_due
retry-timer ticks rb now h k = elim (Bool-cases (is_due now rb.deadline)) [
  | inl due ↦ inl (due, ground arith)
  | inr early ↦ elim (Bool-cases (ltb ((rb.deadline + 2 ^ 64 - now) % 2 ^ 64) (ticks / 2))) [
    | inl short ↦ inr (
      early,
      (
        (rb.deadline + 2 ^ 64 - now) % 2 ^ 64,
        ground arith,
        ground arith,
        omega arith,
        (λ two. ground arith),
        inr (ground arith),
      ),
    )
    | inr long ↦ inr (
      early,
      (ticks / 2, ground arith, omega arith, ground arith, (λ two. omega (arith, two)), inl refl),
    )
  ]
]
