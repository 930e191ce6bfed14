-- ===== src/Hpd/WebServer/Answer/Trust.antt =====
-- hpbridge/hpdaemon/hpd_https_web_server.c: which clients the HTTPS server answers.
use home_automation_bridge_z.Prelude.{
  ◌≡◌, refl, false, Bool, ◌&&◌, negb, if◌then◌else◌, Option, none, some, List, [], ◌∷◌, map, arith,
}
use home_automation_bridge_z.Hpd.Error.{
  ℤ, pos, negsuc, int_eq, value, null_pointer, client_cert_error, success,
}
use home_automation_bridge_z.Hpd.ServerSentEvents.Stream.{Reply}
use home_automation_bridge_z.Hpd.WebServer.Answer.{secure_answer_to_connection}
use home_automation_bridge_z.Hpd.WebServer.Reply.{
  ConCls, nothing, Call, Outside, ServerState, secure_send_error,
}

-- What GnuTLS says of the other end of a session: whether there is a session, whether
-- `gnutls_certificate_verify_peers2` succeeds and the flags of its status, and whether the calls for
-- the certificate itself succeed.
pub record Peer : Type 0 where
  pub has_session : Bool
  pub verified : Bool
  pub invalid : Bool
  pub signer_not_found : Bool
  pub revoked : Bool
  pub expired : Bool
  pub not_activated : Bool
  pub is_x509 : Bool
  pub initialized : Bool
  pub has_list : Bool
  pub imported : Bool

-- GNUTLS_E_CERTIFICATE_ERROR is -43.
abbrev pub certificate_error : ℤ
certificate_error = negsuc 42

unfoldable pub verify_certificate : Peer → ℤ
unfolding value
verify_certificate p =
    if negb p.has_session
    then value null_pointer
    else if negb p.verified
    then certificate_error
    else if p.invalid
    then value client_cert_error
    else if p.signer_not_found
    then value client_cert_error
    else if p.revoked
    then value client_cert_error
    else if p.expired
    then value client_cert_error
    else if p.not_activated
    then value client_cert_error
    else if negb p.is_x509
    then certificate_error
    else if negb p.initialized
    then certificate_error
    else if negb p.has_list
    then certificate_error
    else if negb p.imported
    then certificate_error
    else value success

-- The calls of a connection one after the other, with their replies.
unfoldable pub run_calls :
    Outside → Peer → List Call → ConCls → ServerState → Option (ServerState × ConCls × List Reply)
run_calls o p [] con m = some (m, con, [])
run_calls o p (c ∷ cs) con m =
    elim (secure_answer_to_connection o (int_eq (verify_certificate p) (pos 0)) c con m) [
      | none ↦ none
      | some (m', con', r) ↦ elim (run_calls o p cs con' m') [
        | none ↦ none
        | some (m'', con'', rs) ↦ some (m'', con'', r ∷ rs)
      ]
    ]

-- A certificate that was verified and has no bad flag.
abbrev pub is_good : Peer → Bool
is_good p =
    p.verified
    && (negb p.invalid
        && (negb p.signer_not_found
            && (negb p.revoked && (negb p.expired && negb p.not_activated))))

verify_certificate-is_good :
    (p : Peer) → is_good p ≡ false → int_eq (verify_certificate p) (pos 0) ≡ false
unfolding verify_certificate value
verify_certificate-is_good p bad = ground arith

-- However many calls come on a connection, and whatever they ask for: if the client's certificate
-- could not be verified, is invalid, revoked, expired or not yet activated, or nobody knows its
-- signer, then each is answered with 401 and none changes anything of the daemon.
pub run_calls_untrusted :
    (o : Outside) (p : Peer) (cs : List Call) (m : ServerState)
    → is_good p ≡ false
    → run_calls o p cs nothing m ≡ some (m, nothing, map (λ c. secure_send_error o.mhd 401) cs)
unfolding run_calls secure_answer_to_connection
run_calls_untrusted o p [] m bad = refl
run_calls_untrusted o p (c ∷ cs) m bad =
    let refused = verify_certificate-is_good p bad in
    rw (run_calls, refused, secure_answer_to_connection, run_calls_untrusted o p cs m bad) refl
