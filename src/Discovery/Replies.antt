-- ===== src/Discovery/Replies.antt =====
-- `rb_discovery_valid_reply`: the replies that it accepts.
use esp32_remote_boot.Prelude.{
  ℕ, suc, ◌+◌, ◌/◌, ◌%◌, ◌≤◌, ◌<◌, ◌≡◌, ◌≢◌, ◌↔◌, refl, sym, ap, ◌∙◌, true, Option, none, some, [],
  ◌∷◌, ◌++◌, inl, inr, length, length-append, drop, replicate, Bytes, AllBytes, AllBytes-drop,
  Access-cases, value, read, slice, equal_at, slice_sound, slice_of, drop_behind, read_sound,
  get_elem?, both_sound, both_of, slice-value, drop_all, read_at, drop_at, arith, append-nil,
}
use esp32_remote_boot.Discovery.{
  u16, valid_ipv4, header, valid_reply, reply_fields, pinned_at, nonzero_at, port_at, byte_at,
}
use esp32_remote_boot.Discovery.Frames.{
  frame, header_sound, header-frame, zero_bytes_iff, equal_at_sound, equal_at_of,
}

-- what a caller that pins a value of `n` bytes asks for; one that pins nothing takes any
abbrev pub Pinned : Option Bytes → Bytes → Type 0
Pinned none x = Unit {0}
Pinned (some y) x = x ≡ y

abbrev pub Sized : Option Bytes → ℕ → Type 0
Sized none n = Unit {0}
Sized (some y) n = length y ≡ n

-- the first octet of an address that can answer
abbrev pub IsUnicast : Bytes → Type 0
IsUnicast [] = ⊥
IsUnicast (a ∷ _) = (a ≢ 0) × (a ≢ 127) × (a < 224)

abbrev pub reply_body : Bytes → Bytes → Bytes → ℕ → ℕ → Bytes → Bytes → Bytes
reply_body nonce device source http ws point signature =
    nonce
    ++ (device
        ++ (source ++ (http / 256 ∷ http % 256 ∷ ws / 256 ∷ ws % 256 ∷ (point ++ signature))))

-- a reply to this nonce, from this source, with these ports, of a device that the caller accepts
pub record IsReply (p nonce : Bytes) (id key : Option Bytes) (source : Bytes) (http ws : ℕ)
    : Type 0 where
  pub device : Bytes
  pub point : Bytes
  pub signature : Bytes
  pub framed : p ≡ frame 2 177 (reply_body nonce device source http ws point signature)
  pub device_size : length device ≡ 16
  pub point_size : length point ≡ 65
  pub signature_size : length signature ≡ 64
  pub device_known : device ≢ replicate 16 0
  pub device_pinned : Pinned id device
  pub unicast : IsUnicast source
  pub uncompressed : get_elem? point 0 ≡ some 4
  pub point_pinned : Pinned key point
  pub ports_open : (http ≢ 0) × (ws ≢ 0)

pub u16_sound :
    (p : Bytes) (i k v : ℕ)
    → AllBytes p
    → u16 p i ≡ value v
    → k ≡ i + 2
    → (drop i p ≡ v / 256 ∷ v % 256 ∷ drop k p) × (k ≤ length p)
unfolding u16
u16_sound p i k v bs h e = elim (Access-cases (read p i)) [
  | inl bad ↦ absurd (ground arith)
  | inr (a, first) ↦ elim (Access-cases (read p (i + 1))) [
    | inl bad ↦ absurd (ground arith)
    | inr (b, second) ↦
        let (e1, _) = read_sound p i (i + 1) a first refl in
        let (e2, l) = read_sound p (i + 1) k b second (omega arith) in
        let b1 : AllBytes (b ∷ drop k p) = rw e2 at (AllBytes-drop (i + 1) p bs) in
        (ground (arith, e1, e2, b1.0), l)
  ]
]

pub u16_of :
    (p : Bytes) (i v : ℕ) (rest : Bytes) → drop i p ≡ v / 256 ∷ v % 256 ∷ rest → u16 p i ≡ value v
unfolding u16
u16_of p i v rest e = ground (arith, read_at p i 0 i e, read_at p i 1 (i + 1) e)

valid_ipv4_sound :
    (p source : Bytes) (i : ℕ) (rest : Bytes)
    → length source ≡ 4
    → drop i p ≡ source ++ rest
    → valid_ipv4 p i ≡ value true
    → IsUnicast source
unfolding valid_ipv4
valid_ipv4_sound p [] i rest l e h = absurd (omega arith)
valid_ipv4_sound p (a ∷ source) i rest l e h = ground (arith, read_at p i 0 i e)

valid_ipv4_of :
    (p source : Bytes) (i : ℕ) (rest : Bytes)
    → drop i p ≡ source ++ rest
    → IsUnicast source
    → valid_ipv4 p i ≡ value true
unfolding valid_ipv4
valid_ipv4_of p [] i rest e h = absurd h
valid_ipv4_of p (a ∷ source) i rest e h = ground (arith, read_at p i 0 i e)

pinned_at_sound :
    (p : Bytes) (off n : ℕ) (o : Option Bytes) (x : Bytes)
    → Sized o n
    → slice p off n ≡ value x
    → pinned_at p off o n ≡ value true
    → Pinned o x
unfolding pinned_at
pinned_at_sound p off n none x l e h = tt
pinned_at_sound p off n (some y) x l e h = ground (arith, equal_at_sound p off n y l h)

pinned_at_of :
    (p : Bytes) (off n : ℕ) (o : Option Bytes) (x : Bytes)
    → Sized o n
    → slice p off n ≡ value x
    → Pinned o x
    → pinned_at p off o n ≡ value true
unfolding pinned_at
pinned_at_of p off n none x l e h = refl
pinned_at_of p off n (some y) x l e h = equal_at_of p off n y l (e ∙ ap value h)

port_at_sound :
    (p : Bytes) (off port : ℕ) → port_at p off port ≡ value true → u16 p off ≡ value port
unfolding port_at
port_at_sound p off port h = ground arith

nonzero_at_sound :
    (p : Bytes) (off n : ℕ) (x : Bytes)
    → slice p off n ≡ value x
    → length x ≡ n
    → nonzero_at p off n ≡ value true
    → x ≢ replicate n 0
unfolding nonzero_at
nonzero_at_sound p off n x e l h z = ground (arith, (zero_bytes_iff x n l).1 z)

nonzero_at_of :
    (p : Bytes) (off n : ℕ) (x : Bytes)
    → slice p off n ≡ value x
    → length x ≡ n
    → x ≢ replicate n 0
    → nonzero_at p off n ≡ value true
unfolding nonzero_at
nonzero_at_of p off n x e l h = ground (arith, zero_bytes_iff x n l)

port_at_of :
    (p : Bytes) (off port : ℕ) (rest : Bytes)
    → drop off p ≡ port / 256 ∷ port % 256 ∷ rest
    → port_at p off port ≡ value true
unfolding port_at
port_at_of p off port rest e = ground (arith, u16_of p off port rest e)

byte_at_of :
    (p x rest : Bytes) (off b : ℕ)
    → drop off p ≡ x ++ rest
    → get_elem? x 0 ≡ some b
    → byte_at p off b ≡ value true
unfolding byte_at
byte_at_of p [] rest off b e h = cc
byte_at_of p (a ∷ x) rest off b e h = ground (arith, read_at p off 0 off e)

byte_at_sound :
    (p x rest : Bytes) (off b n : ℕ)
    → drop off p ≡ x ++ rest
    → length x ≡ suc n
    → byte_at p off b ≡ value true
    → get_elem? x 0 ≡ some b
unfolding byte_at
byte_at_sound p [] rest off b n e l h = absurd (omega arith)
byte_at_sound p (a ∷ x) rest off b n e l h = ground (arith, read_at p off 0 off e)

module _ (p nonce : Bytes) (id key : Option Bytes) (source : Bytes) (http ws : ℕ) (bs : AllBytes p)
    (nonce_size : length nonce ≡ 16) (id_size : Sized id 16) (key_size : Sized key 65)
    (source_size : length source ≡ 4) where
  -- the frame from the pieces between the offsets
  reply_layout :
      (device point signature : Bytes)
      → p ≡ frame 2 177 (drop 8 p)
      → drop 8 p ≡ nonce ++ drop 24 p
      → drop 24 p ≡ device ++ drop 40 p
      → drop 40 p ≡ source ++ drop 44 p
      → drop 44 p ≡ http / 256 ∷ http % 256 ∷ drop 46 p
      → drop 46 p ≡ ws / 256 ∷ ws % 256 ∷ drop 48 p
      → drop 48 p ≡ point ++ drop 113 p
      → drop 113 p ≡ signature ++ drop 177 p
      → drop 177 p ≡ []
      → p ≡ frame 2 177 (reply_body nonce device source http ws point signature)
  reply_layout device point signature e0 e1 e2 e3 e4 e5 e6 e7 e8 =
      e0
      ∙ ap (frame 2 177) (
          e1
          ∙ ap (◌++◌ nonce) (
              e2
              ∙ ap (◌++◌ device) (
                  e3
                  ∙ ap (◌++◌ source) (
                      e4
                      ∙ ap (λ t. http / 256 ∷ http % 256 ∷ t)
                          (e5
                            ∙ ap (λ t. ws / 256 ∷ ws % 256 ∷ t)
                                (e6
                                  ∙ ap (◌++◌ point)
                                      (e7 ∙ ap (◌++◌ signature) e8 ∙ append-nil signature)))))))

  reply_fields-IsReply :
      header p 2 177 ≡ value true
      → http ≢ 0
      → ws ≢ 0
      → reply_fields p nonce id key source http ws ≡ value true
      → IsReply p nonce id key source http ws
  unfolding reply_fields
  reply_fields-IsReply head open_http open_ws h =
      let (framed, size) = header_sound p 2 177 bs (omega arith) head in
      let (h1, r1) = both_sound (equal_at p 8 nonce 16) _ h in
      let (h2, r2) = both_sound (pinned_at p 24 id 16) _ r1 in
      let (h3, r3) = both_sound (nonzero_at p 24 16) _ r2 in
      let (h4, r4) = both_sound (valid_ipv4 p 40) _ r3 in
      let (h5, r5) = both_sound (equal_at p 40 source 4) _ r4 in
      let (h6, r6) = both_sound (port_at p 44 http) _ r5 in
      let (h7, r7) = both_sound (port_at p 46 ws) _ r6 in
      let (h8, h9) = both_sound (byte_at p 48 4) (pinned_at p 48 key 65) r7 in
      let (e1, _, _) =
        slice_sound p 8 16 24 nonce (equal_at_sound p 8 16 nonce nonce_size h1) refl in
      let (device, found, device_size, e2) = slice-value p 24 16 40 (omega arith) refl in
      let (e3, _, _) =
        slice_sound p 40 4 44 source (equal_at_sound p 40 4 source source_size h5) refl in
      let (e4, _) = u16_sound p 44 46 http bs (port_at_sound p 44 http h6) refl in
      let (e5, _) = u16_sound p 46 48 ws bs (port_at_sound p 46 ws h7) refl in
      let (point, found', point_size, e6) = slice-value p 48 65 113 (omega arith) refl in
      let (signature, _, signature_size, e7) = slice-value p 113 64 177 (omega arith) refl in
      record {
        device = device;
        point = point;
        signature = signature;
        framed =
            reply_layout device point signature framed e1 e2 e3 e4 e5 e6 e7
              (drop_all 177 p (omega arith));
        device_size = device_size;
        point_size = point_size;
        signature_size = signature_size;
        device_known = nonzero_at_sound p 24 16 device found device_size h3;
        device_pinned = pinned_at_sound p 24 16 id device id_size found h2;
        unicast = valid_ipv4_sound p source 40 (drop 44 p) source_size e3 h4;
        uncompressed = byte_at_sound p point (drop 113 p) 48 4 64 e6 point_size h8;
        point_pinned = pinned_at_sound p 48 65 key point key_size found' h9;
        ports_open = (open_http, open_ws);
      }

  -- Every test of the fields holds of a reply.
  reply_fields_of :
      (r : IsReply p nonce id key source http ws)
      → length p ≡ 177
      → reply_fields p nonce id key source http ws ≡ value true
  unfolding reply_fields
  reply_fields_of r size =
      let e1 : drop 8 p ≡ reply_body nonce r.device source http ws r.point r.signature =
        ap (drop 8) r.framed in
      let e2 = drop_behind p 8 16 24 nonce _ e1 (sym nonce_size) refl in
      let e3 = drop_behind p 24 16 40 r.device _ e2 (sym r.device_size) refl in
      let e4 = drop_behind p 40 4 44 source _ e3 (sym source_size) refl in
      let e5 = drop_at p 44 2 46 e4 refl in
      let e6 = drop_at p 46 2 48 e5 refl in
      let s1 = slice_of p 8 16 nonce _ e1 (sym nonce_size) (omega arith) in
      let s2 = slice_of p 24 16 r.device _ e2 (sym r.device_size) (omega arith) in
      let s3 = slice_of p 40 4 source _ e3 (sym source_size) (omega arith) in
      let s6 = slice_of p 48 65 r.point _ e6 (sym r.point_size) (omega arith) in
      both_of (equal_at p 8 nonce 16) _ (equal_at_of p 8 16 nonce nonce_size s1) (
        both_of (pinned_at p 24 id 16) _
          (pinned_at_of p 24 16 id r.device id_size s2 r.device_pinned)
          (both_of (nonzero_at p 24 16) _
            (nonzero_at_of p 24 16 r.device s2 r.device_size r.device_known)
            (both_of (valid_ipv4 p 40) _ (valid_ipv4_of p source 40 _ e3 r.unicast) (
              both_of (equal_at p 40 source 4) _ (equal_at_of p 40 4 source source_size s3) (
                both_of (port_at p 44 http) _ (port_at_of p 44 http _ e4) (
                  both_of (port_at p 46 ws) _ (port_at_of p 46 ws _ e5) (
                    both_of (byte_at p 48 4) _ (byte_at_of p r.point _ 48 4 e6 r.uncompressed)
                      (pinned_at_of p 48 65 key r.point key_size s6 r.point_pinned))))))))

  reply_size_of : IsReply p nonce id key source http ws → length p ≡ 177
  reply_size_of r =
      let tail : Bytes = http / 256 ∷ http % 256 ∷ ws / 256 ∷ ws % 256 ∷ (r.point ++ r.signature) in
      omega (
        arith,
        ap length r.framed,
        nonce_size,
        source_size,
        r.device_size,
        r.point_size,
        r.signature_size,
        length-append nonce (r.device ++ (source ++ tail)),
        length-append r.device (source ++ tail),
        length-append source tail,
        length-append r.point r.signature,
      )

  -- A datagram of bytes is a valid reply to this nonce exactly when it is a frame of type 2 and
  -- size 177 that holds the nonce, a device identifier that is not all zero and is the pinned one
  -- if there is one, the source's address, which is unicast, the two ports, neither of them 0, and
  -- an uncompressed public point, which is the pinned one if there is one. The sizes of the
  -- nonce, the address and the pinned values are as the protocol has them.
  pub valid_reply_iff :
      (valid_reply p (some nonce) id key (some source) http ws ≡ value true)
      ↔ IsReply p nonce id key source http ws
  unfolding valid_reply
  valid_reply_iff = (
    λ h.
        let (head, rest) = both_sound (header p 2 177) _ h in
        reply_fields-IsReply head (ground arith) (ground arith) (ground arith),
    λ r.
        let size = reply_size_of r in
        let head : header p 2 177 ≡ value true = rw r.framed (
          header-frame 2 177 (reply_body nonce r.device source http ws r.point r.signature)
            (sym (ap length r.framed) ∙ size)) in
        ground (arith, head, reply_fields_of r size, r.ports_open),
  )
