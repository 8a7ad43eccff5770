-- ===== src/Control/Routed.antt =====
-- `executeRouted` and `displayLeader` of cmd/orrisctl/main.go. What is sent changes the cluster: the world `W` and
-- `sendRawCommand` on it are parameters, with none for an error. Latencies are left out.
use Prim.Native.String.{String}
use text.Mathlib.TextEquality.{eq_iff}
use orris.Prelude.{
  Bool, true, false, ◌&&◌, ◌≡◌, ◌⊎◌, refl, arith, inl, inr, Bool-cases, subst, ◌≢◌, Option, none,
  some, List, [], ◌∷◌, ◌++◌, ap, sym, if◌then◌else◌, ◌==◌, string_eq,
}
use orris.Control.Text.{contains}
use orris.Control.Node.{NodeInfo}

abbrev pub leads : NodeInfo → Bool
leads n = n.online && n.role == "LEADER"

-- The loop of `displayLeader` and of `clusterKillLeader`, up to the first leader.
unfoldable pub find_leader : List NodeInfo → Option NodeInfo
find_leader [] = none
find_leader (n ∷ nodes) = let rest = find_leader nodes in if leads n then some n else rest

abbrev pub NoneLeads : List NodeInfo → Type 0
NoneLeads [] = Unit
NoneLeads (n ∷ nodes) = (leads n ≡ false) × NoneLeads nodes

-- The first node of the list that leads, or none if none does.
abbrev pub IsFirst : List NodeInfo → Option NodeInfo → Type 0
IsFirst nodes none = NoneLeads nodes
IsFirst nodes (some n) =
    (before : List NodeInfo) × (after : List NodeInfo) × (nodes ≡ before ++ n ∷ after)
    × NoneLeads before
    × (leads n ≡ true)

IsFirst-cons :
    (m : NodeInfo) (nodes : List NodeInfo) (found : Option NodeInfo)
    → leads m ≡ false
    → IsFirst nodes found
    → IsFirst (m ∷ nodes) found
IsFirst-cons m nodes none other h = (other, h)
IsFirst-cons m nodes (some n) other (before, after, same, none_before, leads_n) =
    (m ∷ before, after, ap (◌∷◌ m) same, (other, none_before), leads_n)

find_leader-IsFirst : (nodes : List NodeInfo) → IsFirst nodes (find_leader nodes)
unfolding find_leader
find_leader-IsFirst [] = tt
find_leader-IsFirst (m ∷ nodes) =
    let rest = find_leader nodes in
    let later = find_leader-IsFirst nodes in
    elim (Bool-cases (leads m)) [
      | inl first ↦
          subst (λ (b : Bool). IsFirst (m ∷ nodes) (if b then some m else rest)) (sym first)
            ([], nodes, refl, tt, first)
      | inr other ↦
          subst (λ (b : Bool). IsFirst (m ∷ nodes) (if b then some m else rest)) (sym other)
            (IsFirst-cons m nodes rest other later)
    ]

abbrev pub addr_of : Option NodeInfo → String
addr_of none = ""
addr_of (some n) = n.addr

module _ {ℓ} (W : Type ℓ) (send : W → String → String → W × Option String) (cmd : String) where
  -- The answer and the address that it came from.
  abbrev pub Routed : Type 0
  Routed = String × String

  -- The loop over the nodes, after its first node answered.
  abbrev pub or_next : String → W × Option String → (W → W × Routed) → W × Routed
  or_next addr (w, none) next = next w
  or_next addr (w, some res) next = if contains res "NOT_LEADER" then next w else (w, (res, addr))

  abbrev pub if_online : Bool → String → W → (W → W × Routed) → W × Routed
  if_online true addr w next = or_next addr (send w addr cmd) next
  if_online false addr w next = next w

  unfoldable pub try_all : List NodeInfo → W → W × Routed
  try_all [] w = (w, ("ERR NO_LEADER_FOUND", "none"))
  try_all (n ∷ nodes) w = if_online n.online n.addr w (try_all nodes)

  -- The leader first, if there is one, and then every node that is online.
  unfoldable pub execute_routed : List NodeInfo → W → W × Routed
  execute_routed nodes w =
      let leader_addr = addr_of (find_leader nodes) in
      if leader_addr == ""
      then try_all nodes w
      else or_next leader_addr (send w leader_addr cmd) (try_all nodes)

  -- Asked in the world `u`, which becomes `v`, the address gives no answer, or says that it does not lead.
  abbrev pub Refuses : String → W → W → Type ℓ
  Refuses addr u v =
      (send u addr cmd ≡ (v, none))
      ⊎ ((res : String) × (send u addr cmd ≡ (v, some res)) × (contains res "NOT_LEADER" ≡ true))

  -- It gives another answer, which is returned with the address.
  abbrev pub Answers : String → W → W × Routed → Type ℓ
  Answers addr u r =
      (res : String) × (send u addr cmd ≡ (r.0, some res))
      × (contains res "NOT_LEADER" ≡ false)
      × (r.1 ≡ (res, addr))

  -- Every node that is online is asked in turn, and refuses.
  abbrev pub AllRefuse : List NodeInfo → W → W → Type ℓ
  AllRefuse [] u v = v ≡ u
  AllRefuse (n ∷ nodes) u v =
      ((n.online ≡ false) × AllRefuse nodes u v)
      ⊎ ((n.online ≡ true) × (x : W) × Refuses n.addr u x × AllRefuse nodes x v)

  -- The first node online that does not refuse answers, or all refuse and the error is returned.
  abbrev pub Tries : List NodeInfo → W → W × Routed → Type ℓ
  Tries nodes u r =
      ((before : List NodeInfo) × (n : NodeInfo) × (after : List NodeInfo) × (x : W) × (nodes
          ≡ before ++ n ∷ after)
        × AllRefuse before u x
        × (n.online ≡ true)
        × Answers n.addr x r)
      ⊎ (AllRefuse nodes u r.0 × (r.1 ≡ ("ERR NO_LEADER_FOUND", "none")))

  -- The first leader is asked, if there is one with an address; if it refuses, or there is none, all are.
  abbrev pub Outcome : List NodeInfo → W → W × Routed → Type ℓ
  Outcome nodes w r =
      (found : Option NodeInfo) × IsFirst nodes found
      × (((addr_of found ≡ "") × Tries nodes w r)
          ⊎ ((addr_of found ≢ "")
              × (Answers (addr_of found) w r
                  ⊎ ((u : W) × Refuses (addr_of found) w u × Tries nodes u r))))

  Tries-cons :
      (n : NodeInfo) (nodes : List NodeInfo) (u v : W) (r : W × Routed)
      → ((l : List NodeInfo) (x : W) → AllRefuse l v x → AllRefuse (n ∷ l) u x)
      → Tries nodes v r
      → Tries (n ∷ nodes) u r
  Tries-cons n nodes u v r first (inl (before, m, after, x, same, refused, on, answer)) =
      inl (n ∷ before, m, after, x, ap (◌∷◌ n) same, first before x refused, on, answer)
  Tries-cons n nodes u v r first (inr (refused, none_answers)) =
      inr (first nodes r.0 refused, none_answers)

  -- One address is asked: it answers, or `next` goes on.
  or_next-either {κ} :
      (addr : String) (w : W) (next : W → W × Routed) (P : W × Routed → Type κ)
      (reply : W × Option String)
      → send w addr cmd ≡ reply
      → ((r : W × Routed) → Answers addr w r → P r)
      → ((u : W) → Refuses addr w u → P (next u))
      → P (or_next addr reply next)
  or_next-either addr w next P (v, none) asked answered goes_on = goes_on v (inl asked)
  or_next-either addr w next P (v, some res) asked answered goes_on =
      elim (Bool-cases (contains res "NOT_LEADER")) [
        | inl refused ↦ rw refused (goes_on v (inr (res, asked, refused)))
        | inr final ↦ rw final (answered (v, (res, addr)) (res, asked, final, refl))
      ]

  try_all-Tries : (nodes : List NodeInfo) (w : W) → Tries nodes w (try_all nodes w)
  unfolding try_all
  try_all-Tries [] w = inr (refl, refl)
  try_all-Tries (n ∷ nodes) w =
      let Result : Bool → Type ℓ =
        λ b. Tries (n ∷ nodes) w (if_online b n.addr w (try_all nodes)) in
      elim (Bool-cases n.online) [
        | inr off ↦ subst Result (sym off) (
            Tries-cons n nodes w w (try_all nodes w) (λ l x h. inl (off, h))
              (try_all-Tries nodes w))
        | inl on ↦ subst Result (sym on) (
            or_next-either n.addr w (try_all nodes) (Tries (n ∷ nodes) w) (send w n.addr cmd) refl
              (λ r answer. inl ([], n, nodes, w, refl, refl, on, answer))
              (λ u refused.
                Tries-cons n nodes w u (try_all nodes u) (λ l x h. inr (on, u, refused, h))
                  (try_all-Tries nodes u)))
      ]

  -- The command goes to the first node that leads, if one does and has an address, and its answer is
  -- returned unless it says that it does not lead. If it says so or gives no answer, or if there is no such node, the
  -- nodes that are online are asked in turn, up to the first that answers otherwise: this answer and the node's
  -- address are returned. The error is returned only when all of them were asked and none did.
  pub execute_routed-Outcome :
      (nodes : List NodeInfo) (w : W) → Outcome nodes w (execute_routed nodes w)
  unfolding execute_routed
  execute_routed-Outcome nodes w =
      let found = find_leader nodes in
      let first = find_leader-IsFirst nodes in
      let addr = addr_of found in
      elim (Bool-cases (addr == "")) [
        | inl no_addr ↦
            let empty : addr ≡ "" = ground (arith, no_addr, eq_iff addr "") in
            rw no_addr (found, first, inl (empty, try_all-Tries nodes w))
        | inr given ↦
            let some_addr : addr ≢ "" =
              λ empty. absurd (ground (arith, given, empty, eq_iff addr "")) in
            rw given (
              or_next-either addr w (try_all nodes) (Outcome nodes w) (send w addr cmd) refl
                (λ r answer. (found, first, inr (some_addr, inl answer)))
                (λ u refused.
                  (found, first, inr (some_addr, inr (u, refused, try_all-Tries nodes u)))))
      ]
