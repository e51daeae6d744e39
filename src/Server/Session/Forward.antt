-- ===== src/Server/Session/Forward.antt =====
-- What passing a WebRTC message on does to it, and who gets it.
use p2p_desktop_share_new.Base.{
  ℕ, String, true, false, not, ◌&&◌, Option, none, some, [], ◌∷◌, ◌++◌, ◌≡◌, ◌≢◌, refl, ap, inl,
  inr, arith, Bool-cases, str_eq, if◌then◌else◌, eq_iff, eq_refl, ◌⊎◌, sym, Elem, Elem-append,
}
use p2p_desktop_share_new.Protocol.{
  JsonLib, get_string_or, string_of, session_ended, session_end_ack,
}
use p2p_desktop_share_new.Server.Hub.Delivery.{named, forward_to-view, Elem-broadcast}
use p2p_desktop_share_new.Server.Hub.WellFormed.{IsWellFormed}
use p2p_desktop_share_new.Server.Hub.Refinement.{str_ne}
use p2p_desktop_share_new.Server.Hub.{Send, deliver, forward_to, broadcast_viewers, end_session}
use p2p_desktop_share_new.Server.Hub.Members.{view}
use p2p_desktop_share_new.Server.Session.{
  WsSession, World, stamped, handle_webrtc_forward, handle_session_end, validate_host_token,
  same_token, send_all,
}

Elem-deliver :
    (x : Send) (o : Option ℕ) (text : String)
    → Elem x (deliver o text)
    → (o ≡ some x.0) × (x.1 ≡ text)
Elem-deliver x none text e = absurd (e refl)
Elem-deliver x (some s) text (inl e) = (ap (λ y. some y.0) (sym e), ap (λ y. y.1) e)
Elem-deliver x (some s) text (inr e) = absurd (e refl)

module _ (json : JsonLib) where
  -- The object that is passed on has the server's room and sender, no token, and is otherwise the
  -- object that came in.
  pub find-stamped :
      (self : WsSession) (obj : json.Object) (key : String)
      → json.find key (stamped json self obj) ≡ (
          if str_eq "room" key
          then some (json.of_string self.room)
          else if str_eq "from" key
          then some (json.of_string self.peer_id)
          else if str_eq "token" key
          then none
          else json.find key obj)
  unfolding stamped
  find-stamped self obj key =
      rw (json.find-put "room" key, json.find-put "from" key, json.find-erase "token" key)

  -- The token of a message, as the session compares it.
  abbrev token_of : json.Object → Option String
  token_of obj = string_of json (json.find "token" obj)

  same_token-eq : (t : Option String) (token : String) → same_token t token ≡ true → t ≡ some token
  same_token-eq none token e = cc
  same_token-eq (some t) token e = ap some ((eq_iff t token).0 e)

  validate-token :
      (self : WsSession) (obj : json.Object)
      → validate_host_token json self obj ≡ true
      → (self.is_host ≡ true) × (token_of obj ≡ some self.host_token)
  unfolding validate_host_token
  validate-token self obj e = elim (Bool-cases self.is_host) [
    | inl q ↦ (q, same_token-eq (token_of obj) self.host_token (rw q at e))
    | inr q ↦ ground (arith, q)
  ]

  -- Every text that a WebRTC message makes the server send goes back to its sender, or is the
  -- stamped message for the live session that its "to" names in the sender's own room; and a sender
  -- that is a host has then given the token of its session.
  pub forward_sound :
      (s : ℕ) (self : WsSession) (obj : json.Object) (w : World) (x : Send)
      → Elem x (handle_webrtc_forward json s self obj w).sent
      → Elem x w.sent
        ⊎ (x.0 ≡ s)
        ⊎ ((named (view w.alive w.hub) self.room (get_string_or json obj "to" "") ≡ some x.0)
            × (x.1 ≡ json.serialize (stamped json self obj))
            × ((self.is_host ≡ false) ⊎ (token_of obj ≡ some self.host_token)))
  unfolding handle_webrtc_forward
  forward_sound s self obj w x e = elim (Bool-cases (str_eq self.room "")) [
    | inl a ↦ mine _ (rw a at e)
    | inr a ↦ elim (Bool-cases (str_eq (get_string_or json obj "to" "") "")) [
      | inl b ↦ inl (rw (a, b) at e)
      | inr b ↦ elim (Bool-cases (self.is_host && not (validate_host_token json self obj))) [
        | inl c ↦ mine _ (rw (a, b, c) at e)
        | inr c ↦ passed c (rw (a, b, c) at e)
      ]
    ]
  ]
    where
      to : String
      to = get_string_or json obj "to" ""

      text : String
      text = json.serialize (stamped json self obj)

      mine :
          (t : String)
          → Elem x (w.sent ++ (s, t) ∷ [])
          → Elem x w.sent
            ⊎ (x.0 ≡ s)
            ⊎ ((named (view w.alive w.hub) self.room to ≡ some x.0)
                × (x.1 ≡ text)
                × ((self.is_host ≡ false) ⊎ (token_of obj ≡ some self.host_token)))
      mine t q = elim (Elem-append x w.sent ((s, t) ∷ []) q) [
        | inl old ↦ inl old
        | inr (inl new) ↦ inr (inl (ap (λ y. y.0) new))
        | inr (inr no_more) ↦ absurd (no_more refl)
      ]

      shown :
          (self.is_host && not (validate_host_token json self obj)) ≡ false
          → (self.is_host ≡ false) ⊎ (token_of obj ≡ some self.host_token)
      shown c = elim (Bool-cases self.is_host) [
        | inl host ↦ inr (validate-token self obj (ground (arith, c, host))).1
        | inr guest ↦ inl guest
      ]

      passed :
          (self.is_host && not (validate_host_token json self obj)) ≡ false
          → Elem x (w.sent ++ forward_to w.alive self.room to text w.hub)
          → Elem x w.sent
            ⊎ (x.0 ≡ s)
            ⊎ ((named (view w.alive w.hub) self.room to ≡ some x.0)
                × (x.1 ≡ text)
                × ((self.is_host ≡ false) ⊎ (token_of obj ≡ some self.host_token)))
      passed c q = elim (Elem-append x w.sent _ q) [
        | inl old ↦ inl old
        | inr new ↦
            let (named_it, its_text) =
              Elem-deliver x _ text (rw (forward_to-view w.alive self.room to text w.hub) at new) in
            inr (inr (named_it, its_text, shown c))
      ]

  -- A session in a room sends a WebRTC message with a "to" that names a live session of the
  -- room, and, if it is marked as a host, with the token of its session: the named session gets
  -- the stamped message, and nothing else is sent or changed.
  pub forward_reaches :
      (s : ℕ) (self : WsSession) (obj : json.Object) (w : World) (j : ℕ)
      → self.room ≢ ""
      → get_string_or json obj "to" "" ≢ ""
      → ((self.is_host ≡ true) → token_of obj ≡ some self.host_token)
      → named (view w.alive w.hub) self.room (get_string_or json obj "to" "") ≡ some j
      → handle_webrtc_forward json s self obj w
        ≡ send_all ((j, json.serialize (stamped json self obj)) ∷ []) w
  unfolding handle_webrtc_forward validate_host_token
  forward_reaches s self obj w j in_room Addressed shown there =
      rw
        (
          str_ne self.room "" in_room,
          str_ne (get_string_or json obj "to" "") "" Addressed,
          forward_to-view w.alive self.room (get_string_or json obj "to" "")
              (json.serialize (stamped json self obj)) w.hub,
          there,
        )
        (elim (Bool-cases self.is_host) [
          | inl host ↦ rw (host, shown host, eq_refl self.host_token)
          | inr guest ↦ rw guest
        ])

  -- Ending a session, in a well-formed hub: every text that "session.end" makes the server send
  -- goes back to its sender, or tells a live viewer of the sender's room that the session ended;
  -- and the sender is then marked as a host and has given the token of its session. Leaving a
  -- room, which ends its session as well, is not meant.
  pub session_end_sound :
      (s : ℕ) (self : WsSession) (obj : json.Object) (w : World) (x : Send)
      → IsWellFormed w.hub
      → Elem x (handle_session_end json s self obj w).sent
      → Elem x w.sent
        ⊎ (x.0 ≡ s)
        ⊎ (((p : String) × ((view w.alive w.hub).viewer self.room p ≡ some x.0))
            × (x.1 ≡ session_ended json self.room (get_string_or json obj "reason" "host_stopped"))
            × (self.is_host ≡ true)
            × (token_of obj ≡ some self.host_token))
  unfolding handle_session_end end_session
  session_end_sound s self obj w x v e = elim (Bool-cases (not self.is_host)) [
    | inl a ↦ inl (rw a at e)
    | inr a ↦ elim (Bool-cases (not (validate_host_token json self obj))) [
      | inl b ↦ mine _ (rw (a, b) at e)
      | inr b ↦ elim (Bool-cases (str_eq self.room "")) [
        | inl c ↦ mine _ (rw (a, b, c) at e)
        | inr c ↦ ended (ground (arith, b)) (rw (a, b, c) at e)
      ]
    ]
  ]
    where
      text : String
      text = session_ended json self.room (get_string_or json obj "reason" "host_stopped")

      Outcome : Type 0
      Outcome =
          Elem x w.sent
          ⊎ (x.0 ≡ s)
          ⊎ (((p : String) × ((view w.alive w.hub).viewer self.room p ≡ some x.0))
              × (x.1 ≡ text)
              × (self.is_host ≡ true)
              × (token_of obj ≡ some self.host_token))

      mine : (t : String) → Elem x (w.sent ++ (s, t) ∷ []) → Outcome
      mine t q = elim (Elem-append x w.sent ((s, t) ∷ []) q) [
        | inl old ↦ inl old
        | inr (inl new) ↦ inr (inl (ap (λ y. y.0) new))
        | inr (inr no_more) ↦ absurd (no_more refl)
      ]

      ended :
          validate_host_token json self obj ≡ true
          → Elem x (
              w.sent
              ++ (broadcast_viewers w.alive self.room text w.hub
                  ++ (s, session_end_ack json self.room) ∷ []))
          → Outcome
      ended shown q = elim (Elem-append x w.sent _ q) [
        | inl old ↦ inl old
        | inr new ↦ elim (Elem-append x (broadcast_viewers w.alive self.room text w.hub) _ new) [
          | inl told ↦
              let (p, there, t) = Elem-broadcast w.alive text self.room x w.hub v told in
              inr (
                inr (
                  (p, there),
                  t,
                  (validate-token self obj shown).0,
                  (validate-token self obj shown).1,
                ))
          | inr (inl ack) ↦ inr (inl (ap (λ y. y.0) ack))
          | inr (inr no_more) ↦ absurd (no_more refl)
        ]
      ]
