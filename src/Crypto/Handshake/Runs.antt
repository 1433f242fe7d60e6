-- ===== src/Crypto/Handshake/Runs.antt =====
-- What a side that completes the handshake of crypto/src/handshake.cpp has done, step by step.
use pqc_edr.Base.{◌≡◌, refl, sym, ap, ◌∙◌, List, [], ◌∷◌}
use pqc_edr.Base.Words.{Bytes}
use pqc_edr.Crypto.Result.{Result, ok, err}
use pqc_edr.Crypto.Primitives.{Libs}
use pqc_edr.Crypto.Handshake.{
  Identity, Channel, Entropy, Process, send, recv, finish, attempt, run, make_channel, ClientStart,
  ServerStart, Agreed, client_start, client_agree, client_auth_frame, client_handshake, server_new,
  server_start, server_agree, server_auth_frame, server_finish, server_handshake,
}

abbrev pub Ends : Process → List Bytes → Channel → List Bytes → Type 0
Ends p frames c sent = ◌≡◌ {A = Result Channel × List Bytes} (run p frames) (ok c, sent)

attempt_inv {ℓ} :
    {A : Type ℓ} (r : Result A) (rest : A → Process) (frames : List Bytes) (c : Channel)
    (sent : List Bytes)
    → Ends (attempt r rest) frames c sent
    → (a : A) × (r ≡ ok a) × Ends (rest a) frames c sent
unfolding run
attempt_inv (err e) rest frames c sent h = cc
attempt_inv (ok a) rest frames c sent h = (a, refl, h)

pub send_inv :
    (f : Bytes) (p : Process) (frames : List Bytes) (c : Channel) (sent : List Bytes)
    → Ends (send f p) frames c sent
    → (later : List Bytes) × (sent ≡ f ∷ later) × Ends p frames c later
unfolding run
send_inv f p frames c sent h =
    let later = (run p frames).1 in
    (
      later,
      sym (ap (λ (r : Result Channel × List Bytes). r.1) h),
      ap (λ (r : Result Channel × List Bytes). (r.0, later)) h,
    )

pub recv_inv :
    (p : Bytes → Process) (frames : List Bytes) (c : Channel) (sent : List Bytes)
    → Ends (recv p) frames c sent
    → (f : Bytes) × (rest : List Bytes) × (frames ≡ f ∷ rest) × Ends (p f) rest c sent
unfolding run
recv_inv p [] c sent h = cc
recv_inv p (f ∷ rest) c sent h = (f, rest, refl, h)

pub finish_inv :
    (r : Result Channel) (frames : List Bytes) (c : Channel) (sent : List Bytes)
    → Ends (finish r) frames c sent
    → (r ≡ ok c) × (sent ≡ [])
unfolding run
finish_inv r frames c sent h = (cc, cc)

module _ (lib : Libs) (e : Entropy) (id : Identity) where
  pub record ClientRun (frames : List Bytes) (c : Channel) (sent : List Bytes) : Type 0 where
    pub st : ClientStart
    pub sh_frame : Bytes
    pub a : Agreed
    pub sa_frame : Bytes
    pub ca_frame : Bytes
    pub rest : List Bytes
    pub started : client_start lib e id ≡ ok st
    pub agreed : client_agree lib e id st sh_frame ≡ ok a
    pub authentic : client_auth_frame lib e id a sa_frame ≡ ok ca_frame
    pub made : make_channel a.keys.c2s_key a.keys.c2s_iv a.keys.s2c_key a.keys.s2c_iv ≡ ok c
    pub received : frames ≡ sh_frame ∷ sa_frame ∷ rest
    pub wrote : sent ≡ st.ch_frame ∷ ca_frame ∷ []

  pub client_run :
      (frames : List Bytes) (c : Channel) (sent : List Bytes)
      → Ends (client_handshake lib e id) frames c sent
      → ClientRun frames c sent
  unfolding client_handshake
  client_run frames c sent h =
      let (st, started, h1) = attempt_inv (client_start lib e id) _ frames c sent h in
      let (sent1, wrote, h2) = send_inv _ _ frames c sent h1 in
      let (sh, frames1, received, h3) = recv_inv _ frames c sent1 h2 in
      let (a, agreed, h4) = attempt_inv (client_agree lib e id st sh) _ frames1 c sent1 h3 in
      let (sa, frames2, received2, h5) = recv_inv _ frames1 c sent1 h4 in
      let (ca, authentic, h6) =
        attempt_inv (client_auth_frame lib e id a sa) _ frames2 c sent1 h5 in
      let (sent2, wrote2, h7) = send_inv _ _ frames2 c sent1 h6 in
      let (made, ended) = finish_inv _ frames2 c sent2 h7 in
      record {
        st = st;
        sh_frame = sh;
        a = a;
        sa_frame = sa;
        ca_frame = ca;
        rest = frames2;
        started = started;
        agreed = agreed;
        authentic = authentic;
        made = made;
        received = received ∙ ap (λ (l : List Bytes). sh ∷ l) received2;
        wrote =
            wrote
            ∙ ap (λ (l : List Bytes). st.ch_frame ∷ l)
                (wrote2 ∙ ap (λ (l : List Bytes). ca ∷ l) ended);
      }

  pub record ServerRun (frames : List Bytes) (c : Channel) (sent : List Bytes) : Type 0 where
    pub x_server : Bytes
    pub ch_frame : Bytes
    pub st : ServerStart
    pub a : Agreed
    pub sa_frame : Bytes
    pub ca_frame : Bytes
    pub rest : List Bytes
    pub created : server_new lib e id ≡ ok x_server
    pub started : server_start lib e id x_server ch_frame ≡ ok st
    pub agreed : server_agree lib e id st ch_frame ≡ ok a
    pub signed : server_auth_frame lib e id a ≡ ok sa_frame
    pub made : server_finish lib e id a sa_frame ca_frame ≡ ok c
    pub received : frames ≡ ch_frame ∷ ca_frame ∷ rest
    pub wrote : sent ≡ st.sh_frame ∷ sa_frame ∷ []

  pub server_run :
      (frames : List Bytes) (c : Channel) (sent : List Bytes)
      → Ends (server_handshake lib e id) frames c sent
      → ServerRun frames c sent
  unfolding server_handshake
  server_run frames c sent h =
      let (x, created, h0) = attempt_inv (server_new lib e id) _ frames c sent h in
      let (ch, frames1, received, h1) = recv_inv _ frames c sent h0 in
      let (st, started, h2) = attempt_inv (server_start lib e id x ch) _ frames1 c sent h1 in
      let (sent1, wrote, h3) = send_inv _ _ frames1 c sent h2 in
      let (a, agreed, h4) = attempt_inv (server_agree lib e id st ch) _ frames1 c sent1 h3 in
      let (sa, signed, h5) = attempt_inv (server_auth_frame lib e id a) _ frames1 c sent1 h4 in
      let (sent2, wrote2, h6) = send_inv _ _ frames1 c sent1 h5 in
      let (ca, frames2, received2, h7) = recv_inv _ frames1 c sent2 h6 in
      let (made, ended) = finish_inv _ frames2 c sent2 h7 in
      record {
        x_server = x;
        ch_frame = ch;
        st = st;
        a = a;
        sa_frame = sa;
        ca_frame = ca;
        rest = frames2;
        created = created;
        started = started;
        agreed = agreed;
        signed = signed;
        made = made;
        received = received ∙ ap (λ (l : List Bytes). ch ∷ l) received2;
        wrote =
            wrote
            ∙ ap (λ (l : List Bytes). st.sh_frame ∷ l)
                (wrote2 ∙ ap (λ (l : List Bytes). sa ∷ l) ended);
      }
