-- ===== src/Fssecure/Audit.antt =====
-- What an audit finds, fssecure.go.
use audistro_provider.Prelude.{ℕ, ◌+◌, ◌≡◌, refl, ◌↔◌, ◌<◌, arith}
use audistro_provider.Fssecure.{
  Node, link, leaf, unreadable, dir, Nodes, empty, entry, Verdict, clean, link_found, audit_failed,
  and_then, audit_no_symlinks, audit_nodes,
}

-- How many links and how many unreadable entries a tree holds, however deep.
mutual
  pub links : Node → ℕ
  links link = 1
  links leaf = 0
  links unreadable = 0
  links (dir nodes) = links_below nodes

  pub links_below : Nodes → ℕ
  links_below empty = 0
  links_below (entry node nodes) = links node + links_below nodes

mutual
  pub faults : Node → ℕ
  faults link = 0
  faults leaf = 0
  faults unreadable = 1
  faults (dir nodes) = faults_below nodes

  pub faults_below : Nodes → ℕ
  faults_below empty = 0
  faults_below (entry node nodes) = faults node + faults_below nodes

-- What a verdict says of the counts.
abbrev pub Tells : Verdict → ℕ → ℕ → Type 0
Tells clean l f = (l ≡ 0) × (f ≡ 0)
Tells link_found l f = 0 < l
Tells audit_failed l f = 0 < f

and_then-Tells :
    (v w : Verdict) (l f l' f' : ℕ)
    → Tells v l f
    → Tells w l' f'
    → Tells (and_then v w) (l + l') (f + f')
and_then-Tells clean clean l f l' f' h h' = (omega arith, omega arith)
and_then-Tells clean link_found l f l' f' h h' = omega arith
and_then-Tells clean audit_failed l f l' f' h h' = omega arith
and_then-Tells link_found w l f l' f' h h' = omega arith
and_then-Tells audit_failed w l f l' f' h h' = omega arith

mutual
  unfolding audit_no_symlinks audit_nodes links links_below faults faults_below

  audit-Tells : (node : Node) → Tells (audit_no_symlinks node) (links node) (faults node)
  audit-Tells link = omega arith
  audit-Tells leaf = (refl, refl)
  audit-Tells unreadable = omega arith
  audit-Tells (dir nodes) = audit_nodes-Tells nodes

  audit_nodes-Tells :
      (nodes : Nodes) → Tells (audit_nodes nodes) (links_below nodes) (faults_below nodes)
  audit_nodes-Tells empty = (refl, refl)
  audit_nodes-Tells (entry node nodes) =
      and_then-Tells (audit_no_symlinks node) (audit_nodes nodes) (links node) (faults node)
        (links_below nodes) (faults_below nodes) (audit-Tells node) (audit_nodes-Tells nodes)

Tells-clean_iff : (v : Verdict) (l f : ℕ) → Tells v l f → (v ≡ clean) ↔ ((l ≡ 0) × (f ≡ 0))
Tells-clean_iff clean l f h = ((λ e. h), (λ e. refl))
Tells-clean_iff link_found l f h = ((λ e. cc), (λ e. absurd (omega arith)))
Tells-clean_iff audit_failed l f h = ((λ e. cc), (λ e. absurd (omega arith)))

-- An audit is clean exactly where the whole tree can be read and holds no symbolic link, at any
-- depth; a link is reported only where there is one, and a failure only where an entry cannot be read.
pub audit_no_symlinks-Tells :
    (node : Node)
    → ((audit_no_symlinks node ≡ clean) ↔ ((links node ≡ 0) × (faults node ≡ 0)))
      × Tells (audit_no_symlinks node) (links node) (faults node)
audit_no_symlinks-Tells node =
    (Tells-clean_iff _ (links node) (faults node) (audit-Tells node), audit-Tells node)
