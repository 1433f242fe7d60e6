-- ===== src/Crypto/Wire/Frames.antt =====
-- Facts about the common frame of crypto/src/wire.cpp that the messages' theorems rest on.
use pqc_edr.Base.{◌≢◌, ◌≡◌, ◌≤◌, [], ◌∷◌, length, arith}
use pqc_edr.Base.Words.{
  Bytes, AreBytes, high_byte, low_byte, join_bytes-bytes, join_bytes-lt, high_byte-join_bytes,
  low_byte-join_bytes,
}
use pqc_edr.Crypto.Result.{wire, wrong_type, ok, err}
use pqc_edr.Crypto.Wire.{MsgType, code, version, frame, open_frame}
use pqc_edr.Crypto.Wire.ReaderOps.{Reader}

code_injective : (s t : MsgType) → code s ≡ code t → s ≡ t
code_injective s t h = ground arith

-- What `frame` writes.
abbrev pub framed : MsgType → Bytes → Bytes
framed type payload =
    code type ∷ version ∷ high_byte (length payload) ∷ low_byte (length payload) ∷ payload

pub frame_ok :
    (type : MsgType) (payload : Bytes)
    → length payload ≤ 0xffff
    → frame type payload ≡ ok (framed type payload)
unfolding frame
frame_ok type payload h = ground arith

pub open-framed :
    (type : MsgType) (payload : Bytes)
    → length payload ≤ 0xffff
    → open_frame (framed type payload) type ≡ ok (record { buf = framed type payload; pos = 4 })
unfolding open_frame
open-framed type payload h = ground (arith, join_bytes-bytes (length payload))

-- Only a frame of that type, version and length is opened.
pub open_frame_inv :
    (f : Bytes) (type : MsgType) (r : Reader)
    → AreBytes f
    → open_frame f type ≡ ok r
    → (payload : Bytes) × (f ≡ framed type payload)
      × (length payload ≤ 0xffff)
      × (r ≡ record { buf = f; pos = 4 })
unfolding open_frame
open_frame_inv [] type r h e = cc
open_frame_inv (a ∷ []) type r h e = cc
open_frame_inv (a ∷ b ∷ []) type r h e = cc
open_frame_inv (a ∷ b ∷ c ∷ []) type r h e = cc
open_frame_inv (a ∷ b ∷ c ∷ d ∷ p) type r h e = (
  p,
  ground (arith, high_byte-join_bytes c d, low_byte-join_bytes c d),
  ground (arith, join_bytes-lt c d),
  ground arith,
)

-- A frame that opens as one type of message opens as no other: the parser for another type refuses
-- it by its type byte.
pub open_frame_other_type :
    (f : Bytes) (type other : MsgType) (r : Reader)
    → AreBytes f
    → open_frame f type ≡ ok r
    → other ≢ type
    → open_frame f other ≡ err (wire wrong_type)
open_frame_other_type f type other r h e ne =
    let (payload, written, _, _) = open_frame_inv f type r h e in
    rw written (unfold open_frame in ground (arith, code_injective type other))
