-- ===== src/Controller/PodAddresses.antt =====
-- Which addresses `getPodsHostIPs` collects.
use nginxpm_operator.Base.{
  true, ◌≡◌, refl, arith, List, [], ◌∷◌, In, inl, inr, All, NoRepeat, contains, NoRepeat-snoc,
  All-snoc, text-Eq, Text, Bool-cases,
}
use nginxpm_operator.Api.{Pod, Node}
use nginxpm_operator.Effect.{Env, History, fetched, kind_node, found, Kube-cases, ok, monad}
use nginxpm_operator.Controller.Upstream.{node_ip, add_ip, collect_ips, get_pods_host_ips}

-- The address of the node of a pod that runs, as the API server answered at some time.
pub record FromPod (env : Env) (pods : List Pod) (ip : Text) : Type 0 where
  pub pod : Pod
  pub in_list : In pod pods
  pub running : pod.running ≡ true
  pub when_asked : History
  pub node : Node
  pub answered : env.nodes when_asked pod.node_name ≡ found node
  pub address : node_ip node ≡ ip

abbrev pub AreAddresses : Env → List Pod → List Text → Type 0
AreAddresses env pods ips = NoRepeat ips × All (FromPod env pods) ips

add_ip-AreAddresses :
    (env : Env) (pods : List Pod) (ip : Text) (ips : List Text)
    → AreAddresses env pods ips
    → FromPod env pods ip
    → AreAddresses env pods (add_ip ip ips)
unfolding add_ip
add_ip-AreAddresses env pods ip ips (distinct, from) new = elim (Bool-cases (contains ips ip)) [
  | inl e ↦ rw e (distinct, from)
  | inr e ↦ rw e (NoRepeat-snoc ips ip e distinct, All-snoc (FromPod env pods) ips ip from new)
]

collect_ips-AreAddresses :
    (env : Env) (every pods : List Pod) (ips found_ips : List Text) (t : History)
    → ((p : Pod) → In p pods → In p every)
    → AreAddresses env every ips
    → (collect_ips ips pods env t).0 ≡ ok found_ips
    → AreAddresses env every found_ips
unfolding collect_ips monad
collect_ips-AreAddresses env every [] ips found_ips t sub h e =
    let q : ips ≡ found_ips = cc in rw (← q) h
collect_ips-AreAddresses env every (pod ∷ pods) ips found_ips t sub h e =
    let t' = fetched kind_node (record { namespace = []; name = pod.node_name }) ∷ t in
    elim (Bool-cases pod.running) [
      | inr stopped ↦
          collect_ips-AreAddresses env every pods ips found_ips t (λ p i. sub p (inr i)) h
            (ground arith)
      | inl running ↦ elim (Kube-cases (env.nodes t pod.node_name)) [
        | inr (e', q) ↦
            collect_ips-AreAddresses env every pods ips found_ips t' (λ p i. sub p (inr i)) h
              (ground arith)
        | inl (node, q) ↦
            collect_ips-AreAddresses env every pods (add_ip (node_ip node) ips) found_ips t'
              (λ p i. sub p (inr i))
              (add_ip-AreAddresses env every (node_ip node) ips h (record {
                pod = pod;
                in_list = sub pod (inl refl);
                running = running;
                when_asked = t;
                node = node;
                answered = q;
                address = refl;
              }))
              (ground arith)
      ]
    ]

-- The addresses that are collected from a list of pods are those of nodes on which a pod of the
-- list runs, and none is there twice.
pub get_pods_host_ips-AreAddresses :
    (env : Env) (pods : List Pod) (ips : List Text) (t : History)
    → (get_pods_host_ips pods env t).0 ≡ ok ips
    → AreAddresses env pods ips
unfolding get_pods_host_ips
get_pods_host_ips-AreAddresses env pods ips t e =
    collect_ips-AreAddresses env pods pods [] ips t (λ p i. i) (tt, tt) e
