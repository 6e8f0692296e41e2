-- ===== src/Broker/Wired.antt =====
-- The broker's configuration reaches each component.
use sgidal_example.Prelude.{
  ◌==◌, All, Result, Dict, lookup, insert, lookup-insert, lookup-insert_self, mem, IsUnique, ok, ℕ,
  String, append, ◌≡◌, refl, ap, ◌∙◌, false, Option, some, List, [], ◌∷◌, map, arith, str_eq, none,
  Option-cases, Bool-cases, inl, inr, if◌then◌else◌, ◌&&◌,
}
use sgidal_example.Prelude.Exec.{Exec, ensure, bind-ok}
use sgidal_example.Broker.{
  Component, Link, WiringDiagram, ComponentStruct, Files, Reply, build_url, links_to, add_links,
  configure_component, Broker, on_network, configure_one, configure_all, configure,
}

-- `source/source_port`
abbrev pub origin : Link → String
origin l = append l.source (append "/" l.source_port)

-- The origin of the last link of the diagram that leads to this port of this component.
abbrev pub origin_at : String → String → List Link → Option String
origin_at name port [] = none
origin_at name port (l ∷ ls) = elim (origin_at name port ls) [
  | some later ↦ some later
  | none ↦ if str_eq l.target name && str_eq l.target_port port then some (origin l) else none
]

abbrev or_lookup : String → Dict String → Option String → Option String
or_lookup port d none = lookup port d
or_lookup port d (some x) = some x

-- The links of a component, one after the other, leave under each port its last origin.
pub lookup-links_to :
    (name port : String) (ls : List Link) (d : Dict String)
    → lookup port (add_links (links_to name ls) d) ≡ or_lookup port d (origin_at name port ls)
unfolding add_links links_to
lookup-links_to name port [] d = refl
lookup-links_to name port (l ∷ ls) d = elim (Bool-cases (str_eq l.target name)) [
  | inr other ↦ elim (Option-cases (origin_at name port ls)) [
    | inl absent ↦ rw (other, lookup-links_to name port ls d, absent) (rw other refl)
    | inr (x, later) ↦ rw (other, lookup-links_to name port ls d, later) refl
  ]
  | inl own ↦
      let next = insert l.target_port (origin l) d in
      rw (own, lookup-links_to name port ls next)
        (elim (Option-cases (origin_at name port ls)) [
          | inr (x, later) ↦ rw later refl
          | inl absent ↦ elim (Bool-cases (str_eq l.target_port port)) [
            | inl here ↦
                rw (absent, own, here)
                  (lookup-insert l.target_port port (origin l) d ∙ rw here refl)
            | inr elsewhere ↦
                rw (absent, own, elsewhere)
                  (lookup-insert l.target_port port (origin l) d ∙ rw elsewhere refl)
          ]
        ])
]

or_empty : (port : String) (o : Option String) → or_lookup port [] o ≡ o
or_empty port none = refl
or_empty port (some x) = refl

module _ {V W : Type 0} (text : String → V) (post : String → ComponentStruct V → Exec W ℕ)
    (files : W → String → Option (Files V)) (service : Option String) where
  -- A request to configure reaches the server of the address, and no other server: the files there
  -- are those that its `configure` writes, and it replies 200.
  pub record Delivers : Type 0 where
    pub after : String → ComponentStruct V → W → W
    pub replies :
        (url : String) (c : ComponentStruct V) (w : W) → post url c w ≡ (ok 200, after url c w)
    pub reaches :
        (url : String) (c : ComponentStruct V) (w : W)
        → files (after url c w) url ≡ some (configure_component text c)
    pub spares :
        (url : String) (c : ComponentStruct V) (w : W) (other : String)
        → str_eq url other ≡ false
        → files (after url c w) other ≡ files w other

  abbrev pub url_of : Component V → String
  url_of c = build_url service c.host c.container_port ("configure" ∷ [])

  abbrev pub urls_of : List (Component V) → List String
  urls_of = map url_of

  abbrev struct_of : List Link → Component V → ComponentStruct V
  struct_of links c = record { component = c; links = links_to c.name links }

  -- The files of a component: its parameters with its name, and under each port the origin of the
  -- last link of the diagram that leads there, and nothing where there is none.
  pub record IsConfigured (links : List Link) (w : W) (c : Component V) : Type 0 where
    pub written : Files V
    pub found : files w (url_of c) ≡ some written
    pub named : lookup "name" written.static_inputs ≡ some (text c.name)
    pub wired : (port : String) → lookup port written.input_mapping ≡ origin_at c.name port links

  module _ (delivers : Delivers) (links : List Link) where
    reached-IsConfigured :
        (c : Component V) (w : W)
        → files w (url_of c) ≡ some (configure_component text (struct_of links c))
        → IsConfigured links w c
    unfolding configure_component
    reached-IsConfigured c w h = record {
      written = configure_component text (struct_of links c);
      found = h;
      named = lookup-insert_self "name" (text c.name) c.parameters;
      wired = λ port.
          lookup-links_to c.name port links [] ∙ or_empty port (origin_at c.name port links);
    }

    configure_one-ok :
        (c : Component V) (w : W)
        → configure_one post service links c w
          ≡ (ok tt, delivers.after (url_of c) (struct_of links c) w)
    unfolding configure_one
    configure_one-ok c w =
        bind-ok (post (url_of c) (struct_of links c)) (λ status. ensure (λ _. status == 200))
          (delivers.replies (url_of c) (struct_of links c) w)

    configure_all-IsConfigured :
        (cs : List (Component V)) (w : W)
        → IsUnique (urls_of cs)
        → (w' : W) × (configure_all post service links cs w ≡ (ok tt, w'))
          × All (IsConfigured links w') cs
          × ((url : String) → mem url (urls_of cs) ≡ false → files w' url ≡ files w url)
    unfolding configure_all
    configure_all-IsConfigured [] w u = (w, refl, tt, λ url h. refl)
    configure_all-IsConfigured (c ∷ cs) w u =
        let first = delivers.after (url_of c) (struct_of links c) w in
        let (w', run, rest, spared) = configure_all-IsConfigured cs first u.1 in
        (
          w',
          bind-ok (configure_one post service links c) (λ _. configure_all post service links cs)
                (configure_one-ok c w)
              ∙ run,
          (
            reached-IsConfigured c w'
                (spared (url_of c) u.0 ∙ delivers.reaches (url_of c) (struct_of links c) w),
            rest,
          ),
          λ url h.
              let later : mem url (urls_of cs) ≡ false = ground (arith, h) in
              spared url later
              ∙ delivers.spares (url_of c) (struct_of links c) w url (ground (arith, h)),
        )

  -- Where each request reaches the server of its address and no other, and the addresses of the
  -- components are distinct: `configure` replies 200 and keeps the diagram, and every component has
  -- its own name and, for every port, the source of the last link of the diagram whose target is this
  -- port of this component, or nothing where no link leads there.
  pub configure-IsConfigured :
      (delivers : Delivers) (diagram : WiringDiagram V) (s : Broker V W)
      → IsUnique (urls_of diagram.components)
      → (reply : Reply) × (end : Broker V W) × (configure post service diagram s ≡ (ok reply, end))
        × (reply.status_code ≡ 200)
        × (end.wiring_diagram ≡ some diagram)
        × All (IsConfigured diagram.links end.network) diagram.components
  unfolding configure
  configure-IsConfigured delivers diagram s u =
      let (w, run, configured, _) =
        configure_all-IsConfigured delivers diagram.links diagram.components s.network u in
      let reply : Reply = record {
        status_code = 200;
        detail = "Sucessfully updated config files for all containers";
      } in
      (
        reply,
        record { wiring_diagram = some diagram; network = w },
        bind-ok (on_network (configure_all post service diagram.links diagram.components))
            (λ _. λ (b : Broker V W). (ok reply, b))
            (ap
              (λ (p : Result (Unit {0}) × W).
                (p.0, record { wiring_diagram = some diagram; network = p.1 }))
              run),
        refl,
        refl,
        configured,
      )
