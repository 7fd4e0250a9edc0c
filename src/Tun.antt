-- ===== src/Tun.antt =====
-- internal/tun/tun_linux.go: the device of the overlay network. What the kernel answers to a call may
-- depend on all calls before it and their answers.
pub mod Configured
pub mod Laws
use nz.Base.{
  ℕ, zero, suc, String, Bool, true, false, not, List, [], ◌∷◌, ◌++◌, Option, none, some, ◌==◌,
  nat_eq, if◌then◌else◌, ◌-◌, ◌*◌, ◌/◌, ◌^◌,
}
use nz.Netip.{Addr, v4, Prefix}
use nz.Command.Text.{◌⧺◌}

-- A call that Create makes. A file descriptor and a link are numbers.
pub data Call : Type 0 where
  link_by_name : String → Call
  link_del : ℕ → Call
  open_tun make_dir make_node : Call
  set_interface : ℕ → String → Call
  set_blocking : ℕ → Call
  set_address : ℕ → Addr → ℕ → Call
  set_up : ℕ → Call
  set_route : ℕ → Addr → ℕ → Call
  close : ℕ → Call

-- A number or an error; `missing` is os.IsNotExist.
pub data Answer : Type 0 where
  done : ℕ → Answer
  refused : Bool → String → Answer

-- A call with its answer.
pub record Event : Type 0 where
  pub call : Call
  pub answer : Answer

-- `interface_name` is what the kernel leaves as the name in the request, for the name that it gets.
pub record Kernel : Type 0 where
  pub answer : List Event → Call → Answer
  pub interface_name : String → String

pub record Device : Type 0 where
  pub fd : ℕ
  pub name : String

-- Go's (Device, error)
pub data Created : Type 0 where
  device : Device → Created
  not_created : String → Created

-- Go's (int, error), for the descriptor.
pub data Opened : Type 0 where
  descriptor : ℕ → Opened
  not_opened : String → Opened

-- The address of the network, `Masked().Addr()`.
abbrev pub masked : Prefix → Addr
masked p = v4 (p.addr / 2 ^ (32 - p.bits) * 2 ^ (32 - p.bits))

module _ (k : Kernel) where
  abbrev pub event_of : List Event → Call → Event
  event_of events c = record { call = c; answer = k.answer events c }

  unfoldable pub perform : List Event → Call → List Event
  perform events c = events ++ event_of events c ∷ []

  delete_link : List Event → Answer → List Event
  unfolding perform
  delete_link events (refused missing e) = events
  delete_link events (done link) = perform events (link_del link)

  unfoldable pub cleanup : String → List Event → List Event
  unfolding delete_link perform
  cleanup name events =
      delete_link (perform events (link_by_name name)) (k.answer events (link_by_name name))

  opened : Answer → Opened
  opened (done fd) = descriptor fd
  opened (refused missing e) = not_opened ("failed to open /dev/net/tun: " ⧺ e)

  -- The second try, after the directory and the node are made; their errors are dropped.
  reopen : List Event → List Event × Opened
  unfolding perform opened
  reopen events =
      let made = perform (perform events make_dir) make_node in
      (perform made open_tun, opened (k.answer made open_tun))

  retried : List Event → Answer → List Event × Opened
  unfolding reopen opened
  retried events (done fd) = (events, descriptor fd)
  retried events (refused missing e) =
      if missing then reopen events else (events, opened (refused missing e))

  open_device : List Event → List Event × Opened
  unfolding retried perform
  open_device events = retried (perform events open_tun) (k.answer events open_tun)

  -- What every call after the open does with its answer: the next step with the number, or the close of
  -- the descriptor and the error.
  attempted : ℕ → List Event → Answer → String → (ℕ → List Event × Created) → List Event × Created
  unfolding perform
  attempted fd events (done n) message next = next n
  attempted fd events (refused missing e) message next =
      (perform events (close fd), not_created (message ⧺ e))

  pub attempt :
      ℕ
      → Call
      → String
      → List Event
      → (ℕ → List Event → List Event × Created)
      → List Event × Created
  unfolding attempted perform
  attempt fd c message events next =
      attempted fd (perform events c) (k.answer events c) message (λ n. next n (perform events c))

  add_route : Device → ℕ → Prefix → List Event → List Event × Created
  unfolding attempt
  add_route d link subnet events =
      attempt d.fd (set_route link (masked subnet) subnet.bits) "failed to add route: " events
        (λ n events. (events, device d))

  bring_up : Device → ℕ → Prefix → List Event → List Event × Created
  unfolding attempt add_route
  bring_up d link subnet events =
      attempt d.fd (set_up link) "failed to bring TUN up: " events (λ n. add_route d link subnet)

  address : Device → Addr → Prefix → ℕ → List Event → List Event × Created
  unfolding attempt bring_up
  address d ip subnet link events =
      attempt d.fd (set_address link ip subnet.bits) "failed to set IP address: " events
        (λ n. bring_up d link subnet)

  find_link : Device → Addr → Prefix → List Event → List Event × Created
  unfolding attempt address
  find_link d ip subnet events =
      attempt d.fd (link_by_name d.name) "failed to get TUN link: " events (address d ip subnet)

  make_blocking : Device → Addr → Prefix → List Event → List Event × Created
  unfolding attempt find_link
  make_blocking d ip subnet events =
      attempt d.fd (set_blocking d.fd) "set nonblock failed: " events (λ n. find_link d ip subnet)

  configure : ℕ → String → Addr → Prefix → List Event → List Event × Created
  unfolding attempt make_blocking
  configure fd name ip subnet events =
      attempt fd (set_interface fd name) "TUNSETIFF failed: " events
        (λ n. make_blocking (record { fd = fd; name = k.interface_name name }) ip subnet)

  with_descriptor : String → Addr → Prefix → List Event × Opened → List Event × Created
  unfolding configure
  with_descriptor name ip subnet (events, not_opened e) = (events, not_created e)
  with_descriptor name ip subnet (events, descriptor fd) = configure fd name ip subnet events

  -- `Create`
  unfoldable pub create : String → Addr → Prefix → List Event → List Event × Created
  unfolding cleanup open_device with_descriptor
  create name ip subnet events = with_descriptor name ip subnet (open_device (cleanup name events))

-- `CheckPermission`, for an effective user id.
unfoldable pub check_permission : ℕ → Option String
check_permission euid =
    if not (euid == 0) then some "tun devices need root, run with sudo" else none

-- How the kernel answers a read or a write.
pub data Io : Type 0 where
  moved : ℕ → Io
  again bad_descriptor : Io
  broken : String → Io

-- What Read and Write return; `waiting` while the kernel has not answered otherwise than with EAGAIN.
pub data Moved : Type 0 where
  count : ℕ → Moved
  closed waiting : Moved
  failed : String → Moved

-- The loop of Read, and of Write, over the answers of the kernel.
unfoldable pub retry : List Io → Moved
retry [] = waiting
retry (again ∷ answers) = retry answers
retry (moved n ∷ answers) = count n
retry (bad_descriptor ∷ answers) = closed
retry (broken e ∷ answers) = failed e
