-- ===== src/Tests/Sessions.antt =====
-- Ending sessions at a concrete store.
use opened_connect_server.Identity.Service.Sessions.Effect.{end_sessions-inactive}
use opened_connect_server.Table.{get, values}
use opened_connect_server.Identity.Service.Sessions.Allowed.{
  HasPassword, end_sessions-MayEnd, MayEnd,
}
use opened_connect_server.Identity.Service.Permitted.{IsSignedIn}
use opened_connect_server.Identity.Principal.{principal, Principal}
use opened_connect_server.Identity.State.{
  clone_user, find_user, find_session, session_by_id, session_active, write, FileState,
}
use opened_connect_server.Oidc.Samples.{sample_state, sample_state-IsWellFormed}
use opened_connect_server.Prelude.{◌==◌, ◌!=◌, ◌≡◌, refl, ap, ◌⊎◌, true, false, ◌&&◌, none}
use opened_connect_server.Errors.{Error, credentials, ok, err}
use opened_connect_server.Identity.Service.{Outside}
use opened_connect_server.Identity.Service.Sessions.{
  end_op_session, end_targets, needs_password, compare_password, checked_password, still_checked,
  end_sessions_transaction, end_sessions, EndCall,
}

abbrev session_outside : Outside
session_outside = record {
  encode = λ p. none;
  verify = λ h p. h == "argon-1" && p == "correct horse battery";
  lower = λ s. s;
  parse_address = λ s. none;
  claims_fault = λ c. none;
}

-- the user's own session, with what it gave offline
abbrev own_call : EndCall
own_call = record {
  kind = "op-sessions";
  id = "op1";
  admin = false;
  request = record { scope = ""; revoke_offline = true; password = "correct horse battery" };
}

abbrev wrong_password : EndCall
wrong_password = record own_call { request = record (own_call.request) { password = "a guess" } }

-- a wrong password ends nothing
end_sessions_wrong :
    end_sessions session_outside "h-cookie" wrong_password "op-2" 120 sample_state sample_state
    ≡ (err credentials, sample_state)
unfolding end_sessions checked_password needs_password ◌==◌ compare_password principal find_session
    get find_user clone_user
end_sessions_wrong = refl

-- the session's end is good
end_sessions_own :
    (end_sessions session_outside "h-cookie" own_call "op-2" 120 sample_state sample_state).0
    ≡ ok tt
unfolding end_sessions checked_password needs_password ◌==◌ compare_password principal find_session
    get find_user clone_user write end_sessions_transaction still_checked end_targets end_op_session
    session_by_id values
end_sessions_own = refl

end_sessions-MayEnd_example :
    ((e : Error) × (end_sessions session_outside "h-cookie" own_call "op-2" 120 sample_state
          sample_state
        ≡ (err e, sample_state)))
    ⊎ ((t : FileState) × (p : Principal) × (end_sessions session_outside "h-cookie" own_call "op-2"
            120 sample_state sample_state
          ≡ (ok tt, t))
        × IsSignedIn "h-cookie" false 120 sample_state p
        × MayEnd p own_call sample_state
        × HasPassword session_outside "h-cookie" own_call 120 sample_state sample_state p)
end_sessions-MayEnd_example =
    end_sessions-MayEnd session_outside "h-cookie" own_call "op-2" 120 sample_state sample_state

abbrev after_own : FileState
after_own =
    (end_sessions session_outside "h-cookie" own_call "op-2" 120 sample_state sample_state).1

session_ended :
    end_sessions session_outside "h-cookie" own_call "op-2" 120 sample_state sample_state
    ≡ (ok tt, after_own)
session_ended = ap (λ r. (r, after_own)) end_sessions_own

session_named : (own_call.id != "") ≡ true
unfolding ◌==◌
session_named = refl

end_sessions-inactive_example : session_active after_own "op1" 130 ≡ false
end_sessions-inactive_example =
    end_sessions-inactive session_outside "h-cookie" own_call "op-2" 120 130 sample_state
      sample_state sample_state-IsWellFormed refl refl session_named session_ended
