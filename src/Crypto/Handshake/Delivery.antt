-- ===== src/Crypto/Handshake/Delivery.antt =====
-- The handshake of crypto/src/handshake.cpp and the record layer of crypto/src/record.cpp together.
use pqc_edr.Base.{◌≡◌, subst, List, [], ◌∷◌}
use pqc_edr.Base.Words.{Bytes}
use pqc_edr.Crypto.Result.{ok}
use pqc_edr.Crypto.Primitives.{Libs}
use pqc_edr.Crypto.Record.{Gcm, Direction}
use pqc_edr.Crypto.Record.Laws.{GcmLaws}
use pqc_edr.Crypto.Record.Stream.{seal_all, open_all, open_all-seal_all}
use pqc_edr.Crypto.Handshake.{Identity, Channel, Entropy, run, client_handshake, server_handshake}
use pqc_edr.Crypto.Handshake.Laws.{AgreementLaws}
use pqc_edr.Crypto.Handshake.Agreement.{channels_agree}

-- After a handshake that both sides complete with each other's frames, the server opens exactly what the
-- client seals, in order, from the first record on. The primitives are as `AgreementLaws` and `GcmLaws` say.
pub channel_delivers :
    (lib : Libs) (laws : AgreementLaws lib) (g : Gcm) (gcm : GcmLaws g) (e f : Entropy)
    (id id' : Identity) (ch_frame sh_frame sa_frame ca_frame : Bytes) (c d : Channel)
    (plain recs : List Bytes) (t : Direction)
    → run (client_handshake lib e id) (sh_frame ∷ sa_frame ∷ []) ≡ (ok c, ch_frame ∷ ca_frame ∷ [])
    → run (server_handshake lib f id') (ch_frame ∷ ca_frame ∷ []) ≡ (ok d, sh_frame ∷ sa_frame ∷ [])
    → seal_all g c.sender plain ≡ ok (recs, t)
    → open_all g d.receiver recs ≡ ok (plain, t)
channel_delivers lib laws g gcm e f id id' ch_frame sh_frame sa_frame ca_frame c d plain recs t hc
      hd sealed =
    let (same, _) =
      channels_agree lib laws e f id id' ch_frame sh_frame sa_frame ca_frame c d hc hd in
    open_all-seal_all g gcm d.receiver t plain recs
      (subst (λ (s : Direction). seal_all g s plain ≡ ok (recs, t)) same sealed)
