-- ===== src/Hub/Messages/Writes.antt =====
-- internal/server/server.go, handleFileWrite: the file that a client has written, and who is told.
use syftbox.Base.{
  ◌≡◌, ◌≢◌, refl, sym, ap, ◌∙◌, Bool, true, false, List, [], ◌∷◌, ◌++◌, ◌⊎◌, inl, inr, Option, none,
  some, Text, text_eq, text_eq_refl, is_some-none, not-true, is_some, Bool-cases,
}
use syftbox.Acl.Level.{new_request, access_read, access_write}
use syftbox.Acl.Matcher.{Env, Today}
use syftbox.Acl.Cache.{Lru, IsLawful}
use syftbox.Acl.Service.Keys.{OfPath, OfPath-own, write-own}
use syftbox.Acl.Service.Readers.{
  MayRead, ComesFrom, ComesFrom-refl, can_access-tree, can_access-IsGranted, can_access-ComesFrom,
}
use syftbox.Acl.Service.{Service, can_access}
use syftbox.Blob.{Backend}
use syftbox.Base.Dict.{OnSome}
use syftbox.Hub.{
  WebsocketClient, with_message, try_send_if, and_state, broadcast_filtered, Sending, sent, panics,
  waits, send_message,
}
use syftbox.Hub.Delivery.{try_send-cases}
use syftbox.Hub.Messages.{
  FileWrite, Message, Live, Handled, done, panicked, blocked, may_receive, refusal, after_refusal,
  after_broadcast, handle_file_write,
}

module _ (c : Lru) (b : Backend) (env : Env) (now : Today) where
  -- The clients before and after a broadcast of `m` about the file `path` of `from`.
  pub data Told (path from : Text) (m : Message) (s : Service c)
      : List (WebsocketClient Message) → List (WebsocketClient Message) → Type 0 where
    nobody : Told path from m s [] []
    passed_over :
        {k : WebsocketClient Message} {cs ds : List (WebsocketClient Message)}
        → Told path from m s cs ds
        → Told path from m s (k ∷ cs) (k ∷ ds)
    told :
        {k : WebsocketClient Message} {cs ds : List (WebsocketClient Message)}
        → k.user ≢ from
        → MayRead c env now path k.user s
        → Told path from m s cs ds
        → Told path from m s (k ∷ cs) (with_message m k ∷ ds)

  may_receive-MayRead :
      (path from to : Text) (s : Service c)
      → (may_receive c b env now path from to s).0 ≡ true
      → (to ≢ from) × ((can_access c env now (new_request path to access_read) s).denial ≡ none)
  unfolding may_receive
  may_receive-MayRead path from to s h = elim (Bool-cases (text_eq to from)) [
    | inl e ↦ cc (rw e at h)
    | inr e ↦ (
      (λ p. cc (e, ap (λ u. text_eq u from) p, text_eq_refl from)),
      is_some-none _ (not-true _ (rw e at h)),
    )
  ]

  round_told :
      {S : Type 0} (P Q : List (WebsocketClient Message) × S → Type 0) (k : WebsocketClient Message)
      (b : Bool) (rest : Option (List (WebsocketClient Message) × S))
      → ((es : List (WebsocketClient Message)) (u : S) → Q (es, u) → P (k ∷ es, u))
      → OnSome Q rest
      → OnSome P (and_state (some (b, k)) rest)
  round_told P Q k b none f q = tt
  round_told P Q k b (some (es, u)) f q = f es u q

  round :
      {S : Type 0} (P Q : List (WebsocketClient Message) × S → Type 0) (picked : Bool) (m : Message)
      (k : WebsocketClient Message) (rest : Option (List (WebsocketClient Message) × S))
      → ((es : List (WebsocketClient Message)) (u : S) → Q (es, u) → P (k ∷ es, u))
      → (picked ≡ true
          → (es : List (WebsocketClient Message)) (u : S) → Q (es, u)
          → P (with_message m k ∷ es, u))
      → OnSome Q rest
      → OnSome P (and_state (try_send_if picked m k) rest)
  round P Q false m k none f g q = tt
  round P Q false m k (some (es, u)) f g q = f es u q
  round P Q true m k rest f g q = elim (try_send-cases m k) [
    | inl e ↦ rw e tt
    | inr (inl e) ↦ rw e (round_told P Q (with_message m k) true rest (g refl) q)
    | inr (inr e) ↦ rw e (round_told P Q k false rest f q)
  ]

  -- What the handling of a message leaves, where it ends: the files are as they were and the tree
  -- of the rules is the same. A sender who may write has the write scheduled, and users other than
  -- the sender who may read the file are told; one who may not has the refusal sent to the
  -- connection, with the writes as they were.
  abbrev pub IsHandled : Text → Text → Text → Message → FileWrite → Live c b → Live c b → Type 0
  IsHandled id conn from m w live after =
      let denial =
        (can_access c env now (new_request w.path from access_write) live.server.acl).denial in
      (after.server.blob ≡ live.server.blob)
      × (after.server.acl.tree ≡ live.server.acl.tree)
      × (((denial ≡ none)
            × (after.writes ≡ live.writes ++ (w ∷ []))
            × Told w.path from m live.server.acl live.clients after.clients)
          ⊎ ((is_some denial ≡ true)
              × (after.writes ≡ live.writes)
              × (send_message conn (refusal c b env now id w.path) live.clients
                  ≡ sent after.clients)))

  abbrev live_of : Live c b → Handled c b → Live c b
  live_of other (done live) = live
  live_of other panicked = other
  live_of other blocked = other

  after_broadcast-done :
      (w : FileWrite) (live after : Live c b)
      (r : Option (List (WebsocketClient Message) × Service c))
      → after_broadcast c b env now w live r ≡ done after
      → (cs : List (WebsocketClient Message)) × (acl : Service c) × (r ≡ some (cs, acl))
        × (after.server.blob ≡ live.server.blob)
        × (after.server.acl ≡ acl)
        × (after.clients ≡ cs)
        × (after.writes ≡ live.writes ++ (w ∷ []))
  after_broadcast-done w live after none h = cc (h)
  after_broadcast-done w live after (some (cs, acl)) h =
      let e = ap (live_of live) (sym h) in
      (
        cs,
        acl,
        refl,
        ap (λ (l : Live c b). l.server.blob) e,
        ap (λ (l : Live c b). l.server.acl) e,
        ap (λ (l : Live c b). l.clients) e,
        ap (λ (l : Live c b). l.writes) e,
      )

  after_refusal-done :
      (acl : Service c) (live after : Live c b) (r : Sending Message)
      → after_refusal c b env now acl live r ≡ done after
      → (r ≡ sent after.clients)
        × (after.server.blob ≡ live.server.blob)
        × (after.server.acl ≡ acl)
        × (after.writes ≡ live.writes)
  after_refusal-done acl live after (sent cs) h =
      let e = ap (live_of live) (sym h) in
      (
        ap (λ (l : Live c b). sent l.clients) (sym e),
        ap (λ (l : Live c b). l.server.blob) e,
        ap (λ (l : Live c b). l.server.acl) e,
        ap (λ (l : Live c b). l.writes) e,
      )
  after_refusal-done acl live after panics h = cc (h)
  after_refusal-done acl live after waits h = cc (h)

  module _ (lawful : IsLawful c) where
    may_receive-ComesFrom :
        (path from to : Text) (s t : Service c)
        → ComesFrom c env now (OfPath path) s t
        → ComesFrom c env now (OfPath path) s (may_receive c b env now path from to t).1
    unfolding may_receive
    may_receive-ComesFrom path from to s t held = elim (Bool-cases (text_eq to from)) [
      | inl e ↦ rw e held
      | inr e ↦ rw e (
          can_access-ComesFrom c env now lawful (OfPath path) s t (new_request path to access_read)
            (OfPath-own path to) held)
    ]

    broadcast-Told :
        (path from : Text) (m : Message) (s s' : Service c) (cs : List (WebsocketClient Message))
        → ComesFrom c env now (OfPath path) s s'
        → OnSome
            (λ (r : List (WebsocketClient Message) × Service c).
              Told path from m s cs r.0 × ComesFrom c env now (OfPath path) s r.1)
            (broadcast_filtered (may_receive c b env now path from) m cs s')
    unfolding broadcast_filtered
    broadcast-Told path from m s s' [] same = (nobody, same)
    broadcast-Told path from m s s' (k ∷ cs) same =
        let s'' = (may_receive c b env now path from k.user s').1 in
        round (λ r. Told path from m s (k ∷ cs) r.0 × ComesFrom c env now (OfPath path) s r.1)
          (λ r. Told path from m s cs r.0 × ComesFrom c env now (OfPath path) s r.1) _ m k _
          (λ es u q. (passed_over q.0, q.1))
          (λ picked es u q.
            let (other, granted) = may_receive-MayRead path from k.user s' picked in
            (
              told other
                  (can_access-IsGranted c env now lawful (OfPath path) s s' _ (k.user, refl) same
                    granted)
                  q.0,
              q.1,
            ))
          (broadcast-Told path from m s s'' cs (may_receive-ComesFrom path from k.user s s' same))

    -- A message that writes a file, where its handling ends, leaves the files as they were and the
    -- tree of the rules the same, also for an ACL file. If the sender may write the file the write
    -- is scheduled, and only users other than the sender are told who may read the file: by the
    -- rule of the tree that matches it first, by a decision that the cache held when the message
    -- came, or with an ID that begins the path. Otherwise nothing is scheduled, and the refusal goes
    -- to the connection. The cache makes no entry up.
    pub handle_file_write-done :
        (id conn from : Text) (m : Message) (w : FileWrite) (live after : Live c b)
        → handle_file_write c b env now id conn from m w live ≡ done after
        → IsHandled id conn from m w live after
    unfolding handle_file_write
    handle_file_write-done id conn from m w live after h =
        let req = new_request w.path from access_write in
        let out = can_access c env now req live.server.acl in
        elim (Bool-cases (is_some out.denial)) [
          | inl e ↦
              let (to, files, acl, same) =
                after_refusal-done out.service live after _ (rw e at h) in
              (
                files,
                ap (λ (s : Service c). s.tree) acl ∙ can_access-tree c env now req live.server.acl,
                inr (e, same, to),
              )
          | inr e ↦
              let (cs, acl, r, files, acl', clients, writes) =
                after_broadcast-done w live after _ (rw e at h) in
              let (told', tree) = rw r at (
                broadcast-Told w.path from m live.server.acl out.service live.clients (
                  can_access-ComesFrom c env now lawful (OfPath w.path) live.server.acl
                    live.server.acl req (write-own w.path from)
                    (ComesFrom-refl c env now (OfPath w.path) live.server.acl))) in
              (
                files,
                ap (λ (s : Service c). s.tree) acl' ∙ tree.0,
                inl (is_some-none _ e, writes, rw clients told'),
              )
        ]
