-- ===== src/Start/Serves.antt =====
-- When src/main.rs comes to serve clients, and with which context.
use linux_bt_proxy.Prelude.{
  ℕ, ◌≡◌, ◌⊎◌, ◌↔◌, refl, sym, ap, ◌∙◌, true, Bool-cases, inl, inr, Option, none, some,
  Option-cases, Bytes,
}
use mathlib.Core.Path.{subst}
use linux_bt_proxy.Context.{ProxyContext}
use linux_bt_proxy.Start.{
  Looked, lookup_mac, SystemMac, system_mac, no_mac, mac_error, Environment, serves, choose_mac,
  make_context, main,
}
use linux_bt_proxy.Start.Lookup.{first, ending, lookup_mac-first}

-- The command line's MAC if it gives one, and otherwise the system's.
abbrev pub IsLocal : Option Bytes → SystemMac → Bytes → Type 0
IsLocal cli system net = (cli ≡ some net) ⊎ ((cli ≡ none) × (system ≡ system_mac net))

choose_mac_iff :
    (cli : Option Bytes) (system : SystemMac) (net : Bytes)
    → (choose_mac cli system ≡ some net) ↔ IsLocal cli system net
unfolding choose_mac
choose_mac_iff (some mac) system net = (λ e. inl e, λ h. elim h [ inl e ↦ e | inr (e, _) ↦ cc ])
choose_mac_iff none (system_mac mac) net =
    (λ e. inr (refl, cc), λ h. elim h [ inl e ↦ cc | inr (_, e) ↦ cc ])
choose_mac_iff none no_mac net = (λ e. cc, λ h. elim h [ inl e ↦ cc | inr (_, e) ↦ cc ])
choose_mac_iff none mac_error net = (λ e. cc, λ h. elim h [ inl e ↦ cc | inr (_, e) ↦ cc ])

module _ (env : Environment) where
  -- The first of the five attempts that gives the adapter's MAC.
  abbrev pub found : Option (ℕ × Bytes)
  found = first env.hci env.address 5 1

  abbrev pub IsContext : ProxyContext → Type 0
  IsContext ctx =
      (ctx.hostname ≡ env.cli_hostname)
      × (ctx.port ≡ env.cli_port)
      × (ctx.build_time ≡ env.build_time)
      × (ctx.version ≡ env.version)
      × ((k : ℕ) × (found ≡ some (k, ctx.bt_mac)))
      × IsLocal env.cli_mac env.system ctx.net_mac

  abbrev pub IsServing : ProxyContext → Type 0
  IsServing ctx = (env.bus ≡ true) × (env.mdns ≡ true) × (env.socket ≡ true) × IsContext ctx

  looked :
      (o : Option (ℕ × Bytes))
      → found ≡ o
      → (lookup_mac env.hci env.address).0 ≡ (ending env.hci env.address 1 o).0
  looked o e =
      ap (λ (r : Looked × ℕ). r.0) (lookup_mac-first env.hci env.address)
      ∙ ap (λ o. (ending env.hci env.address 1 o).0) e

  -- The way to the server.
  main_up :
      (k : ℕ) (bt net : Bytes)
      → env.bus ≡ true
      → found ≡ some (k, bt)
      → choose_mac env.cli_mac env.system ≡ some net
      → env.mdns ≡ true
      → env.socket ≡ true
      → main env ≡ serves (make_context env bt net)
  unfolding main
  main_up k bt net bus there chosen announced bound =
      rw (main, bus, looked (some (k, bt)) there, chosen, announced, bound) refl

  main-IsServing : (ctx : ProxyContext) → main env ≡ serves ctx → IsServing ctx
  unfolding main make_context
  main-IsServing ctx e = elim (Bool-cases env.bus) [
    | inr no_bus ↦ absurd (let q = (rw (main, no_bus) at e) in cc)
    | inl bus ↦ elim (Option-cases found) [
      | inl gone ↦ absurd (let q = (rw (main, bus, looked none gone) at e) in cc)
      | inr ((k, bt), there) ↦ elim (Option-cases (choose_mac env.cli_mac env.system)) [
        | inl unknown ↦
            absurd (let q = (rw (main, bus, looked (some (k, bt)) there, unknown) at e) in cc)
        | inr (net, chosen) ↦ elim (Bool-cases env.mdns) [
          | inr off ↦
              absurd (let q = (rw (main, bus, looked (some (k, bt)) there, chosen, off) at e) in cc)
          | inl announced ↦ elim (Bool-cases env.socket) [
            | inr off ↦ absurd (
                let q =
                  (rw (main, bus, looked (some (k, bt)) there, chosen, announced, off) at e) in
                cc)
            | inl bound ↦
                let up : serves (make_context env bt net) ≡ serves ctx =
                  sym (main_up k bt net bus there chosen announced bound) ∙ e in
                let same : make_context env bt net ≡ ctx = cc in
                subst IsServing same (
                  bus,
                  announced,
                  bound,
                  (
                    refl,
                    refl,
                    refl,
                    refl,
                    (k, there),
                    (choose_mac_iff env.cli_mac env.system net).0 chosen,
                  ),
                )
          ]
        ]
      ]
    ]
  ]

  -- The program serves clients just when it has the bus, the service is announced, the socket listens,
  -- one of five attempts gives the adapter's MAC, and the command line or else the system gives one;
  -- and then with these two, the first attempt's MAC as the adapter's and the command line's, if it
  -- gives one, as the network's, with the host name and the port of the command line, and with
  -- the build time and the version.
  pub main-serves : (ctx : ProxyContext) → (main env ≡ serves ctx) ↔ IsServing ctx
  unfolding make_context
  main-serves ctx = (
    main-IsServing ctx,
    λ (bus, announced, bound, (name, port, time, version, (k, there), local)).
        main_up k ctx.bt_mac ctx.net_mac bus there
          ((choose_mac_iff env.cli_mac env.system ctx.net_mac).1 local) announced bound
        ∙ (λ i. serves (record {
          hostname = sym name i;
          port = sym port i;
          net_mac = ctx.net_mac;
          bt_mac = ctx.bt_mac;
          build_time = sym time i;
          version = sym version i;
        })),
  )
