-- ===== src/Tun/Laws.antt =====
-- internal/tun/tun_linux.go, Create: the descriptors that its calls leave open.
use nz.Base.{
  ℕ, ◌≡◌, refl, ap, ◌∙◌, String, true, false, not, List, [], ◌∷◌, ◌++◌, ◌==◌, nat_eq, keep_if,
  arith, if_false,
}
use nz.Netip.{Addr, Prefix}
use nz.Tun.{
  Call, link_by_name, link_del, open_tun, make_dir, make_node, set_interface, set_blocking,
  set_address, set_up, set_route, close, Answer, done, refused, Event, Kernel, Device, Created,
  device, not_created, masked, event_of, perform, create, cleanup, attempt, attempted, delete_link,
  add_route, bring_up, address, find_link, make_blocking, configure, with_descriptor, open_device,
  retried, reopen, opened, Opened, descriptor, not_opened,
}

-- The open descriptors after an event.
abbrev after : List ℕ → Event → List ℕ
after fds e = elim e.call [
  | open_tun ↦ elim e.answer [ done fd ↦ fd ∷ fds | refused _ _ ↦ fds ]
  | close fd ↦ keep_if (λ n. not (n == fd)) fds
  | _ ↦ fds
]

-- The descriptors that the events leave open.
abbrev pub left_open : List ℕ → List Event → List ℕ
left_open fds [] = fds
left_open fds (e ∷ events) = left_open (after fds e) events

left_open-append :
    (fds : List ℕ) (xs : List Event) (e : Event)
    → left_open fds (xs ++ e ∷ []) ≡ after (left_open fds xs) e
left_open-append fds [] e = refl
left_open-append fds (x ∷ xs) e = left_open-append (after fds x) xs e

-- A call that neither opens nor closes a descriptor.
abbrev IsQuiet : Call → Type 0
IsQuiet open_tun = ⊥
IsQuiet (close fd) = ⊥
IsQuiet _ = Unit

after-quiet :
    (fds : List ℕ) (c : Call) (a : Answer)
    → IsQuiet c
    → after fds (record { call = c; answer = a }) ≡ fds
after-quiet fds open_tun a h = absurd h
after-quiet fds (close fd) a h = absurd h
after-quiet fds (link_by_name x) a h = refl
after-quiet fds (link_del x) a h = refl
after-quiet fds make_dir a h = refl
after-quiet fds make_node a h = refl
after-quiet fds (set_interface x y) a h = refl
after-quiet fds (set_blocking x) a h = refl
after-quiet fds (set_address x y z) a h = refl
after-quiet fds (set_up x) a h = refl
after-quiet fds (set_route x y z) a h = refl

-- A device is the one descriptor left open; without a device none is.
abbrev pub Left : List Event × Created → Type 0
Left (events, device d) = left_open [] events ≡ d.fd ∷ []
Left (events, not_created e) = left_open [] events ≡ []

Opens : List Event × Opened → Type 0
Opens (events, descriptor fd) = left_open [] events ≡ fd ∷ []
Opens (events, not_opened e) = left_open [] events ≡ []

module _ (k : Kernel) where
  left_open-quiet :
      (fds : List ℕ) (events : List Event) (c : Call)
      → IsQuiet c
      → left_open fds (perform k events c) ≡ left_open fds events
  unfolding perform
  left_open-quiet fds events c h =
      left_open-append fds events (event_of k events c)
      ∙ after-quiet (left_open fds events) c (k.answer events c) h

  left_open-close :
      (events : List Event) (fd : ℕ)
      → left_open [] events ≡ fd ∷ []
      → left_open [] (perform k events (close fd)) ≡ []
  unfolding perform keep_if
  left_open-close events fd h =
      left_open-append [] events (event_of k events (close fd))
      ∙ ap (keep_if (λ n. not (n == fd))) h
      ∙ if_false (not (fd == fd)) _ _ (ground arith)

  attempted_lem :
      (P : List Event × Created → Type 0) (fd : ℕ) (events : List Event) (a : Answer)
      (message : String) (next : ℕ → List Event × Created)
      → ((e : String) → P (perform k events (close fd), not_created e))
      → ((n : ℕ) → a ≡ done n → P (next n))
      → P (attempted k fd events a message next)
  unfolding attempted
  attempted_lem P fd events (done n) message next fails works = works n refl
  attempted_lem P fd events (refused missing e) message next fails works = fails _

  pub attempt_lem :
      (P : List Event × Created → Type 0) (fd : ℕ) (c : Call) (message : String)
      (events : List Event) (next : ℕ → List Event → List Event × Created)
      → ((e : String) → P (perform k (perform k events c) (close fd), not_created e))
      → ((n : ℕ) → k.answer events c ≡ done n → P (next n (perform k events c)))
      → P (attempt k fd c message events next)
  unfolding attempt
  attempt_lem P fd c message events next fails works =
      attempted_lem P fd (perform k events c) (k.answer events c) message
        (λ n. next n (perform k events c)) fails works

  -- A step that succeeds goes on with the descriptor open, and one that fails closes it.
  attempt-Left :
      (fd : ℕ) (c : Call) (message : String) (events : List Event)
      (next : ℕ → List Event → List Event × Created)
      → IsQuiet c
      → left_open [] events ≡ fd ∷ []
      → ((n : ℕ) (later : List Event) → left_open [] later ≡ fd ∷ [] → Left (next n later))
      → Left (attempt k fd c message events next)
  attempt-Left fd c message events next quiet one works =
      let still = left_open-quiet [] events c quiet ∙ one in
      attempt_lem Left fd c message events next (λ e. left_open-close (perform k events c) fd still)
        (λ n a. works n (perform k events c) still)

  module _ (d : Device) (ip : Addr) (subnet : Prefix) where
    add_route-Left :
        (link : ℕ) (events : List Event)
        → left_open [] events ≡ d.fd ∷ []
        → Left (add_route k d link subnet events)
    unfolding add_route
    add_route-Left link events one =
        attempt-Left d.fd (set_route link (masked subnet) subnet.bits) "failed to add route: "
          events (λ n events. (events, device d)) tt one (λ n later one. one)

    bring_up-Left :
        (link : ℕ) (events : List Event)
        → left_open [] events ≡ d.fd ∷ []
        → Left (bring_up k d link subnet events)
    unfolding bring_up
    bring_up-Left link events one =
        attempt-Left d.fd (set_up link) "failed to bring TUN up: " events
          (λ n. add_route k d link subnet) tt one (λ n. add_route-Left link)

    address-Left :
        (link : ℕ) (events : List Event)
        → left_open [] events ≡ d.fd ∷ []
        → Left (address k d ip subnet link events)
    unfolding address
    address-Left link events one =
        attempt-Left d.fd (set_address link ip subnet.bits) "failed to set IP address: " events
          (λ n. bring_up k d link subnet) tt one (λ n. bring_up-Left link)

    find_link-Left :
        (events : List Event)
        → left_open [] events ≡ d.fd ∷ []
        → Left (find_link k d ip subnet events)
    unfolding find_link
    find_link-Left events one =
        attempt-Left d.fd (link_by_name d.name) "failed to get TUN link: " events
          (address k d ip subnet) tt one address-Left

    make_blocking-Left :
        (events : List Event)
        → left_open [] events ≡ d.fd ∷ []
        → Left (make_blocking k d ip subnet events)
    unfolding make_blocking
    make_blocking-Left events one =
        attempt-Left d.fd (set_blocking d.fd) "set nonblock failed: " events
          (λ n. find_link k d ip subnet) tt one (λ n. find_link-Left)

  configure-Left :
      (fd : ℕ) (name : String) (ip : Addr) (subnet : Prefix) (events : List Event)
      → left_open [] events ≡ fd ∷ []
      → Left (configure k fd name ip subnet events)
  unfolding configure
  configure-Left fd name ip subnet events one =
      let d : Device = record { fd = fd; name = k.interface_name name } in
      attempt-Left fd (set_interface fd name) "TUNSETIFF failed: " events
        (λ n. make_blocking k d ip subnet) tt one (λ n. make_blocking-Left d ip subnet)

  delete_link-Left :
      (later : List Event) (a : Answer) → left_open [] (delete_link k later a) ≡ left_open [] later
  unfolding delete_link
  delete_link-Left later (refused missing e) = refl
  delete_link-Left later (done link) = left_open-quiet [] later (link_del link) tt

  cleanup-Left :
      (name : String) (events : List Event)
      → left_open [] (cleanup k name events) ≡ left_open [] events
  unfolding cleanup
  cleanup-Left name events =
      delete_link-Left (perform k events (link_by_name name)) (k.answer events (link_by_name name))
      ∙ left_open-quiet [] events (link_by_name name) tt

  -- What an open leaves, by its answer.
  opened-Opens :
      (events : List Event) (a : Answer)
      → left_open [] events ≡ []
      → Opens (events ++ record { call = open_tun; answer = a } ∷ [], opened k a)
  unfolding opened Opens
  opened-Opens events (done fd) h = left_open-append [] events _ ∙ ap (◌∷◌ fd) h
  opened-Opens events (refused missing e) h = left_open-append [] events _ ∙ h

  retried-Opens :
      (events : List Event) (a : Answer)
      → left_open [] events ≡ []
      → Opens (retried k (events ++ record { call = open_tun; answer = a } ∷ []) a)
  unfolding retried reopen perform
  retried-Opens events (done fd) h = opened-Opens events (done fd) h
  retried-Opens events (refused false e) h = opened-Opens events (refused false e) h
  retried-Opens events (refused true e) h =
      let once = events ++ record { call = open_tun; answer = refused true e } ∷ [] in
      let made = perform k (perform k once make_dir) make_node in
      opened-Opens made (k.answer made open_tun) (
        left_open-quiet [] (perform k once make_dir) make_node tt
        ∙ left_open-quiet [] once make_dir tt
        ∙ left_open-append [] events _
        ∙ h)

  with_descriptor-Left :
      (name : String) (ip : Addr) (subnet : Prefix) (r : List Event × Opened)
      → Opens r
      → Left (with_descriptor k name ip subnet r)
  unfolding with_descriptor Opens
  with_descriptor-Left name ip subnet (events, not_opened e) h = h
  with_descriptor-Left name ip subnet (events, descriptor fd) h =
      configure-Left fd name ip subnet events h

  pub create-Left :
      (name : String) (ip : Addr) (subnet : Prefix) → Left (create k name ip subnet [])
  unfolding create open_device perform
  create-Left name ip subnet =
      let clean = cleanup k name [] in
      with_descriptor-Left name ip subnet _
        (retried-Opens clean (k.answer clean open_tun) (cleanup-Left name []))
