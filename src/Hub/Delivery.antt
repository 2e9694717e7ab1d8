-- ===== src/Hub/Delivery.antt =====
-- internal/server/handlers/ws/ws_hub.go: SendMessageUser, Broadcast and BroadcastFiltered.
use syftbox.Base.{
  ◌≡◌, refl, Bool, true, false, ◌&&◌, ◌||◌, List, [], ◌∷◌, ◌⊎◌, inl, inr, none, some, Text, text_eq,
  if◌then◌else◌, any, Bool-cases,
}
use mathlib.Core.List.{map}
use syftbox.Hub.{
  WebsocketClient, has_room, with_message, try_send, try_send_if, and_then, and_clients,
  send_message_user, broadcast,
}

module _ {M : Type 0} where
  -- The clients after each one that `pick` holds of was given the message, if it had room.
  abbrev pub deliver :
      (WebsocketClient M → Bool) → M → List (WebsocketClient M) → List (WebsocketClient M)
  deliver pick m cs = map (λ c. if pick c && has_room c then with_message m c else c) cs

  pub try_send-cases :
      (m : M) (c : WebsocketClient M)
      → (try_send m c ≡ none)
        ⊎ ((try_send m c ≡ some (true, with_message m c)) ⊎ (try_send m c ≡ some (false, c)))
  unfolding try_send
  try_send-cases m c = elim (Bool-cases c.closed) [
    | inl e ↦ inl (simp e refl)
    | inr e ↦ elim (Bool-cases (has_room c)) [
      | inl r ↦ inr (inl (simp (e, r) refl))
      | inr r ↦ inr (inr (simp (e, r) refl))
    ]
  ]

  user_round :
      (u k r sent closed : Bool) (m : M) (c : WebsocketClient M) (cs : List (WebsocketClient M))
      → c.closed ≡ k
      → has_room c ≡ r
      → and_then (try_send_if u m c) (if closed then none else some (sent, cs)) ≡ (
          if (u && k) || closed
          then none
          else some ((u && r) || sent, (if u && r then with_message m c else c) ∷ cs))
  unfolding try_send
  user_round false k r sent true m c cs p q = refl
  user_round false k r sent false m c cs p q = refl
  user_round true true r sent closed m c cs p q = rw p refl
  user_round true false true sent true m c cs p q = rw (p, q) refl
  user_round true false true sent false m c cs p q = rw (p, q) refl
  user_round true false false sent true m c cs p q = rw (p, q) refl
  user_round true false false sent false m c cs p q = rw (p, q) refl

  broadcast_round :
      (k r closed : Bool) (m : M) (c : WebsocketClient M) (cs : List (WebsocketClient M))
      → c.closed ≡ k
      → has_room c ≡ r
      → and_clients (try_send m c) (if closed then none else some cs)
        ≡ (if k || closed then none else some ((if r then with_message m c else c) ∷ cs))
  unfolding try_send
  broadcast_round true r closed m c cs p q = rw p refl
  broadcast_round false true true m c cs p q = rw (p, q) refl
  broadcast_round false true false m c cs p q = rw (p, q) refl
  broadcast_round false false true m c cs p q = rw (p, q) refl
  broadcast_round false false false m c cs p q = rw (p, q) refl

  -- `SendMessageUser` panics exactly if the hub still holds a closed client of the user. Otherwise
  -- the clients of the user that have room get the message behind what they wait for, all other
  -- clients are as they were, and the answer tells whether there was such a client.
  pub send_message_user-deliver :
      (user : Text) (m : M) (cs : List (WebsocketClient M))
      → send_message_user user m cs ≡ (
          if any (λ c. text_eq c.user user && c.closed) cs
          then none
          else some (
            any (λ c. text_eq c.user user && has_room c) cs,
            deliver (λ c. text_eq c.user user) m cs,
          ))
  unfolding send_message_user
  send_message_user-deliver user m [] = refl
  send_message_user-deliver user m (c ∷ cs) =
      rw (send_message_user-deliver user m cs) (user_round _ _ _ _ _ m c _ refl refl)

  -- `Broadcast` panics exactly if the hub still holds a closed client, and otherwise gives the
  -- message to the clients that have room and to no other.
  pub broadcast-deliver :
      (m : M) (cs : List (WebsocketClient M))
      → broadcast m cs ≡ (if any (λ c. c.closed) cs then none else some (deliver (λ c. true) m cs))
  unfolding broadcast
  broadcast-deliver m [] = refl
  broadcast-deliver m (c ∷ cs) = rw (broadcast-deliver m cs) (broadcast_round _ _ _ m c _ refl refl)
