-- ===== src/Discovery/Parts.antt =====
-- `rb_discovery_valid_reply` for a caller that pins an identifier and a key, test by test.
use esp32_remote_boot.Prelude.{
  ℕ, ◌≡◌, ◌≢◌, Bool, true, false, ◌||◌, some, ◌==◌, Bytes, Access, value, both_sound, both_of,
  equal_at, if◌then◌else◌, arith,
}
use esp32_remote_boot.Discovery.{
  valid_ipv4, header, valid_reply, reply_fields, pinned_at, nonzero_at, port_at, byte_at,
}

pub record Parts (p nonce id key source : Bytes) (http ws : ℕ) : Type 0 where
  pub head : header p 2 177 ≡ value true
  pub same_nonce : equal_at p 8 nonce 16 ≡ value true
  pub same_id : equal_at p 24 id 16 ≡ value true
  pub device_known : nonzero_at p 24 16 ≡ value true
  pub unicast : valid_ipv4 p 40 ≡ value true
  pub same_source : equal_at p 40 source 4 ≡ value true
  pub http_is : port_at p 44 http ≡ value true
  pub ws_is : port_at p 46 ws ≡ value true
  pub form_is : byte_at p 48 4 ≡ value true
  pub same_key : equal_at p 48 key 65 ≡ value true

module _ (p nonce id key source : Bytes) (http ws : ℕ) (ports : (http ≢ 0) × (ws ≢ 0)) where
  all_fields :
      Parts p nonce id key source http ws
      → reply_fields p nonce (some id) (some key) source http ws ≡ value true
  unfolding reply_fields pinned_at
  all_fields r = both_of (equal_at p 8 nonce 16) _ r.same_nonce (
      both_of (equal_at p 24 id 16) _ r.same_id (
        both_of (nonzero_at p 24 16) _ r.device_known (
          both_of (valid_ipv4 p 40) _ r.unicast (
            both_of (equal_at p 40 source 4) _ r.same_source (
              both_of (port_at p 44 http) _ r.http_is (
                both_of (port_at p 46 ws) _ r.ws_is
                  (both_of (byte_at p 48 4) _ r.form_is r.same_key)))))))

  pub valid_reply_of :
      Parts p nonce id key source http ws
      → valid_reply p (some nonce) (some id) (some key) (some source) http ws ≡ value true
  unfolding valid_reply
  valid_reply_of r = both_of (header p 2 177) _ r.head (tests_of (all_fields r))
    where
      tests_of :
          reply_fields p nonce (some id) (some key) source http ws ≡ value true
          → (if http == 0 || ws == 0
              then value false
              else reply_fields p nonce (some id) (some key) source http ws)
            ≡ value true
      tests_of e = rw e (ground (arith, ports.0, ports.1))

  pub valid_reply-Parts :
      valid_reply p (some nonce) (some id) (some key) (some source) http ws ≡ value true
      → Parts p nonce id key source http ws
  unfolding valid_reply reply_fields pinned_at
  valid_reply-Parts h =
      let (head, rest) = both_sound (header p 2 177) _ h in
      let tests : reply_fields p nonce (some id) (some key) source http ws ≡ value true =
        rest_of rest in
      let (h1, r1) = both_sound (equal_at p 8 nonce 16) _ tests in
      let (h2, r2) = both_sound (equal_at p 24 id 16) _ r1 in
      let (h3, r3) = both_sound (nonzero_at p 24 16) _ r2 in
      let (h4, r4) = both_sound (valid_ipv4 p 40) _ r3 in
      let (h5, r5) = both_sound (equal_at p 40 source 4) _ r4 in
      let (h6, r6) = both_sound (port_at p 44 http) _ r5 in
      let (h7, r7) = both_sound (port_at p 46 ws) _ r6 in
      let (h8, h9) = both_sound (byte_at p 48 4) (equal_at p 48 key 65) r7 in
      record {
        head = head;
        same_nonce = h1;
        same_id = h2;
        device_known = h3;
        unicast = h4;
        same_source = h5;
        http_is = h6;
        ws_is = h7;
        form_is = h8;
        same_key = h9;
      }
    where
      rest_of :
          {m : Access Bool}
          → (if http == 0 || ws == 0 then value false else m) ≡ value true
          → m ≡ value true
      rest_of e = ground (arith, e, ports.0, ports.1)
