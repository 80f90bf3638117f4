-- ===== src/Connections/Added.antt =====
-- What adding a node does to the sockets.
use old_derecho.Base.{
  ℕ, ◌<◌, ◌≡◌, ◌≢◌, refl, sym, ap, subst, ◌∙◌, inl, inr, ◌⊎◌, Bool, true, false, none, some, arith,
  Bool-cases, Option-cases, ◌==◌, pos, eqb_ℤ,
}
use old_derecho.Base.Maps.{
  Map, find, assign, emplace, erase, IsOrdered, find-assign, assign-IsOrdered, find-erase,
  find-emplace_other, find-emplace_absent,
}
use old_derecho.View.{Ip}
use old_derecho.Connections.{
  Network, Connections, add_node, add_connection, connect_to, accept_from,
}

other_key : (j id : ℕ) → j ≢ id → eqb_ℤ (pos id) (pos j) ≡ false
other_key j id ne = ground arith

module _ {S : Type 0} where
  -- The sockets of all nodes but one are as they were.
  abbrev pub OthersSame : ℕ → Connections S → Connections S → Type 0
  OthersSame id c c' = (j : ℕ) → j ≢ id → find (pos j) c'.sockets ≡ find (pos j) c.sockets

  -- An attempt to connect to a node: it holds for the result of connect_to.
  pub record ConnectedTo (net : Network S) (id : ℕ) (ip : Ip) (c : Connections S) (ok : Bool)
      (c' : Connections S) : Type 0 where
    pub success :
        ok ≡ true
        → (s : S) × (net.connect ip ≡ some s)
          × (net.exchange s c.my_id ≡ some id)
          × (find (pos id) c'.sockets ≡ some s)
    pub failure :
        ok ≡ false
        → (find (pos id) c'.sockets ≡ none)
          ⊎ ((net.connect ip ≡ none)
              × (net.entry_first ≡ true)
              × (find (pos id) c'.sockets ≡ some net.empty_socket))
    pub others : OthersSame id c c'

  found : (id : ℕ) (s : S) (m : Map S) → find (pos id) (assign (pos id) s m) ≡ some s
  found id s m = find-assign (pos id) (pos id) s m ∙ ground arith

  kept :
      (id j : ℕ) (s : S) (m : Map S) → j ≢ id → find (pos j) (assign (pos id) s m) ≡ find (pos j) m
  kept id j s m ne = find-assign (pos id) (pos j) s m ∙ rw (other_key j id ne) refl

  gone :
      (id : ℕ) (s : S) (m : Map S)
      → IsOrdered m
      → find (pos id) (erase (pos id) (assign (pos id) s m)) ≡ none
  gone id s m o =
      find-erase (pos id) (pos id) (assign (pos id) s m) (assign-IsOrdered (pos id) s m o)
      ∙ ground arith

  kept_erased :
      (id j : ℕ) (s : S) (m : Map S)
      → IsOrdered m
      → j ≢ id
      → find (pos j) (erase (pos id) (assign (pos id) s m)) ≡ find (pos j) m
  kept_erased id j s m o ne =
      find-erase (pos id) (pos j) (assign (pos id) s m) (assign-IsOrdered (pos id) s m o)
      ∙ rw (other_key j id ne) (kept id j s m ne)

  connect_to-ConnectedTo :
      (net : Network S) (id : ℕ) (ip : Ip) (c : Connections S)
      → IsOrdered c.sockets
      → find (pos id) c.sockets ≡ none
      → let r = connect_to net id ip c in ConnectedTo net id ip c r.0 r.1
  unfolding connect_to
  connect_to-ConnectedTo net id ip c o absent = elim (Option-cases (net.connect ip)) [
    | inl e ↦ elim (Bool-cases net.entry_first) [
      | inl first ↦
          let left : Connections S = record c {
            sockets = emplace (pos id) net.empty_socket c.sockets;
          } in
          let at : connect_to net id ip c ≡ (false, left) = ground (arith, e, first) in
          subst (λ r. ConnectedTo net id ip c r.0 r.1) (sym at)
            (record {
              success = λ h. absurd (ground arith);
              failure = λ h.
                  inr (e, first, find-emplace_absent (pos id) net.empty_socket c.sockets absent);
              others = λ j ne.
                  find-emplace_other (pos id) (pos j) net.empty_socket c.sockets
                    (other_key j id ne);
            })
      | inr last ↦
          let at : connect_to net id ip c ≡ (false, c) = ground (arith, e, last) in
          subst (λ r. ConnectedTo net id ip c r.0 r.1) (sym at)
            (record {
              success = λ h. absurd (ground arith);
              failure = λ h. inl absent;
              others = λ j ne. refl;
            })
    ]
    | inr (s, e) ↦ elim (Option-cases (net.exchange s c.my_id)) [
      | inl x ↦
          rw (connect_to, e, x)
            (record {
              success = λ h. absurd (ground arith);
              failure = λ h. inl (gone id s c.sockets o);
              others = λ j ne. kept_erased id j s c.sockets o ne;
            })
      | inr (remote, x) ↦ elim (Bool-cases (remote == id)) [
        | inl same ↦
            let e' : remote ≡ id = ground arith in
            rw (connect_to, e, x, same)
              (record {
                success = λ h. (s, e, x ∙ ap some e', found id s c.sockets);
                failure = λ h. absurd (ground arith);
                others = λ j ne. kept id j s c.sockets ne;
              })
        | inr other ↦
            rw (connect_to, e, x, other)
              (record {
                success = λ h. absurd (ground arith);
                failure = λ h. inl (gone id s c.sockets o);
                others = λ j ne. kept_erased id j s c.sockets o ne;
              })
      ]
    ]
  ]

  -- An accepted connection: it is filed under the ID that the other side names.
  pub record AcceptedFrom (net : Network S) (c : Connections S) (ok : Bool) (c' : Connections S)
      : Type 0 where
    pub success :
        ok ≡ true
        → (s : S) × (remote : ℕ) × (net.accept ≡ some s)
          × (net.exchange s c.my_id ≡ some remote)
          × (find (pos remote) c'.sockets ≡ some s)
          × OthersSame remote c c'
    pub failure : ok ≡ false → c' ≡ c

  accept_from-AcceptedFrom :
      (net : Network S) (c : Connections S)
      → let r = accept_from net c in AcceptedFrom net c r.0 r.1
  unfolding accept_from
  accept_from-AcceptedFrom net c = elim (Option-cases net.accept) [
    | inl e ↦
        let at : accept_from net c ≡ (false, c) = rw (accept_from, e) refl in
        subst (λ r. AcceptedFrom net c r.0 r.1) (sym at)
          (record { success = λ h. absurd (ground arith); failure = λ h. refl })
    | inr (s, e) ↦ elim (Option-cases (net.exchange s c.my_id)) [
      | inl x ↦
          let at : accept_from net c ≡ (false, c) = ground (arith, e, x) in
          subst (λ r. AcceptedFrom net c r.0 r.1) (sym at)
            (record { success = λ h. absurd (ground arith); failure = λ h. refl })
      | inr (remote, x) ↦
          let filed : Connections S = record c { sockets = assign (pos remote) s c.sockets } in
          let at : accept_from net c ≡ (true, filed) = ground (arith, e, x) in
          subst (λ r. AcceptedFrom net c r.0 r.1) (sym at)
            (record {
              success = λ h.
                  (s, remote, e, x, found remote s c.sockets, λ j ne. kept remote j s c.sockets ne);
              failure = λ h. absurd (ground arith);
            })
    ]
  ]

  -- add_node, if it passes its assertions: the node is another one and has no socket yet. With a
  -- lower ID, a success means that the node was reached and named that ID, and its socket is filed;
  -- after a failure it has no socket, or, if the connection itself failed and the entry is made before
  -- it, the entry of an empty socket stays; the other sockets stay. With a higher ID, a success means that a
  -- connection was accepted, and the socket is filed under whatever ID the other side named, which
  -- need not be the one asked for; after a failure nothing has changed.
  pub add_node_lem :
      (net : Network S) (id : ℕ) (ip : Ip) (c c' : Connections S) (ok : Bool)
      → IsOrdered c.sockets
      → add_node net id ip c ≡ some (ok, c')
      → (id ≢ c.my_id)
        × (find (pos id) c.sockets ≡ none)
        × (id < c.my_id → ConnectedTo net id ip c ok c')
        × (c.my_id < id → AcceptedFrom net c ok c')
  unfolding add_node add_connection
  add_node_lem net id ip c c' ok o e = elim (Bool-cases (id == c.my_id)) [
    | inl same ↦ absurd (ground arith)
    | inr ne ↦ elim (Option-cases (find (pos id) c.sockets)) [
      | inr (s, there) ↦ absurd (ground arith)
      | inl absent ↦ (
        ground arith,
        absent,
        λ low.
            let at : connect_to net id ip c ≡ (ok, c') = ground (arith, low) in
            subst (λ r. ConnectedTo net id ip c r.0 r.1) at
              (connect_to-ConnectedTo net id ip c o absent),
        λ high.
            let at : accept_from net c ≡ (ok, c') = ground (arith, high) in
            subst (λ r. AcceptedFrom net c r.0 r.1) at (accept_from-AcceptedFrom net c),
      )
    ]
  ]
