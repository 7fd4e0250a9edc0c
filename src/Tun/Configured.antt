-- ===== src/Tun/Configured.antt =====
-- internal/tun/tun_linux.go, Create: the device that it returns.
use nz.Base.{ℕ, ◌≡◌, refl, ap, ◌∙◌, String, List, [], ◌∷◌, ◌++◌}
use nz.Netip.{Addr, Prefix}
use nz.Tun.{
  Call, link_by_name, set_interface, set_blocking, set_address, set_up, set_route, done, Event,
  Kernel, Device, Created, device, not_created, masked, perform, create, cleanup, add_route,
  bring_up, address, find_link, make_blocking, configure, with_descriptor, open_device, Opened,
  descriptor, not_opened,
}
use nz.Tun.Laws.{attempt_lem, Left, create-Left}

abbrev works : Call → ℕ → Event
works c n = record { call = c; answer = done n }

-- The events end with the address set on a link, the link set up, and the route of the network set
-- through it, each without an error.
pub record IsConfigured (ip : Addr) (subnet : Prefix) (events : List Event) : Type 0 where
  pub before : List Event
  pub link : ℕ
  pub a : ℕ
  pub b : ℕ
  pub c : ℕ
  pub ends :
      events
      ≡ ((before ++ works (set_address link ip subnet.bits) a ∷ []) ++ works (set_up link) b ∷ [])
        ++ works (set_route link (masked subnet) subnet.bits) c ∷ []

abbrev pub Configured : Addr → Prefix → List Event × Created → Type 0
Configured ip subnet (events, device d) = IsConfigured ip subnet events
Configured ip subnet (events, not_created e) = Unit

module _ (k : Kernel) (ip : Addr) (subnet : Prefix) where
  perform_done :
      (events : List Event) (c : Call) (n : ℕ)
      → k.answer events c ≡ done n
      → perform k events c ≡ events ++ works c n ∷ []
  unfolding perform
  perform_done events c n e = rw e refl

  add_route-Configured :
      (d : Device) (link : ℕ) (events addressed : List Event) (a b : ℕ)
      → addressed
        ≡ (events ++ works (set_address link ip subnet.bits) a ∷ []) ++ works (set_up link) b ∷ []
      → Configured ip subnet (add_route k d link subnet addressed)
  unfolding add_route
  add_route-Configured d link events addressed a b e =
      let route = set_route link (masked subnet) subnet.bits in
      attempt_lem k (Configured ip subnet) d.fd route "failed to add route: " addressed
        (λ n events. (events, device d)) (λ e. tt)
        (λ c ec. record {
          before = events;
          link = link;
          a = a;
          b = b;
          c = c;
          ends = perform_done addressed route c ec ∙ ap (λ es. es ++ works route c ∷ []) e;
        })

  bring_up-Configured :
      (d : Device) (link : ℕ) (events addressed : List Event) (a : ℕ)
      → addressed ≡ events ++ works (set_address link ip subnet.bits) a ∷ []
      → Configured ip subnet (bring_up k d link subnet addressed)
  unfolding bring_up
  bring_up-Configured d link events addressed a e =
      attempt_lem k (Configured ip subnet) d.fd (set_up link) "failed to bring TUN up: " addressed
        (λ n. add_route k d link subnet) (λ e. tt)
        (λ b eb. add_route-Configured d link events (perform k addressed (set_up link)) a b (
          perform_done addressed (set_up link) b eb
          ∙ ap (λ es. es ++ works (set_up link) b ∷ []) e))

  address-Configured :
      (d : Device) (link : ℕ) (events : List Event)
      → Configured ip subnet (address k d ip subnet link events)
  unfolding address
  address-Configured d link events =
      let c = set_address link ip subnet.bits in
      attempt_lem k (Configured ip subnet) d.fd c "failed to set IP address: " events
        (λ n. bring_up k d link subnet) (λ e. tt)
        (λ a ea.
          bring_up-Configured d link events (perform k events c) a (perform_done events c a ea))

  find_link-Configured :
      (d : Device) (events : List Event) → Configured ip subnet (find_link k d ip subnet events)
  unfolding find_link
  find_link-Configured d events =
      attempt_lem k (Configured ip subnet) d.fd (link_by_name d.name) "failed to get TUN link: "
        events (address k d ip subnet) (λ e. tt)
        (λ link el. address-Configured d link (perform k events (link_by_name d.name)))

  make_blocking-Configured :
      (d : Device) (events : List Event) → Configured ip subnet (make_blocking k d ip subnet events)
  unfolding make_blocking
  make_blocking-Configured d events =
      attempt_lem k (Configured ip subnet) d.fd (set_blocking d.fd) "set nonblock failed: " events
        (λ n. find_link k d ip subnet) (λ e. tt)
        (λ n en. find_link-Configured d (perform k events (set_blocking d.fd)))

  configure-Configured :
      (fd : ℕ) (name : String) (events : List Event)
      → Configured ip subnet (configure k fd name ip subnet events)
  unfolding configure
  configure-Configured fd name events =
      let d : Device = record { fd = fd; name = k.interface_name name } in
      attempt_lem k (Configured ip subnet) fd (set_interface fd name) "TUNSETIFF failed: " events
        (λ n. make_blocking k d ip subnet) (λ e. tt)
        (λ n en. make_blocking-Configured d (perform k events (set_interface fd name)))

  with_descriptor-Configured :
      (name : String) (r : List Event × Opened)
      → Configured ip subnet (with_descriptor k name ip subnet r)
  unfolding with_descriptor
  with_descriptor-Configured name (events, not_opened e) = tt
  with_descriptor-Configured name (events, descriptor fd) = configure-Configured fd name events

  create-Configured :
      (name : String) (events : List Event) → Configured ip subnet (create k name ip subnet events)
  unfolding create
  create-Configured name events =
      with_descriptor-Configured name (open_device k (cleanup k name events))

  -- Whatever the kernel answers: when Create returns an error, its calls have left no descriptor open;
  -- when it returns a device, they have left the device's descriptor open and no other, and the last
  -- calls have put the address, with the length of the network, on a link, have set the link up and
  -- have set the route of the network through it, and none of these failed.
  pub create_lem :
      (name : String)
      → Left (create k name ip subnet []) × Configured ip subnet (create k name ip subnet [])
  create_lem name = (create-Left k name ip subnet, create-Configured name [])
