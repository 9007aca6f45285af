-- ===== src/ProxyHosts/Domains.antt =====
-- The domains of a host (proxyhost_controller.go): taken from the resource, without their ports,
-- and held against those of every other resource.
pub mod Unique
use nginxpm_operator.Base.{
  Bool, true, false, ◌&&◌, Option, none, some, List, [], ◌∷◌, map, if◌then◌else◌, contains, find,
  ◌==◌, text-Eq, Text,
}
use nginxpm_operator.Base.Strings.{split_last, is_int}
use nginxpm_operator.Errors.{Error, domain_taken}
use nginxpm_operator.Api.{ProxyHost}
use nginxpm_operator.Effect.{Action, ◌>>=◌, ◌>>◌, pure, fail}
use nginxpm_operator.Controller.Resources.{list_objects, proxy_host-Resource}

-- The copy of the slice.
unfoldable pub extract_domains : ProxyHost → List Text
extract_domains ph = ph.spec.domain_names

drop_port : Text → Option (Text × Text) → Text
drop_port domain none = domain
drop_port domain (some (before, after)) = if is_int after then before else domain

unfoldable pub without_port : Text → Text
unfolding drop_port
without_port domain = drop_port domain (split_last b':' domain)

unfoldable pub extract_domains_without_ports : ProxyHost → List Text
extract_domains_without_ports ph = map without_port ph.spec.domain_names

unfoldable pub same_resource : ProxyHost → ProxyHost → Bool
same_resource a b =
    a.metadata.name == b.metadata.name && a.metadata.namespace == b.metadata.namespace

abbrev taken_by : ProxyHost → Option Text → Option Error
taken_by other none = none
taken_by other (some domain) =
    some (domain_taken domain other.metadata.name other.metadata.namespace)

abbrev or_else : Option Error → Option Error → Option Error
or_else none e = e
or_else (some e) e' = some e

-- The two loops: the first domain that another resource has too.
unfoldable pub first_conflict : ProxyHost → List Text → List ProxyHost → Option Error
first_conflict ph domains [] = none
first_conflict ph domains (other ∷ others) =
    or_else
      (if same_resource other ph
        then none
        else taken_by other (find (λ domain. contains (extract_domains other) domain) domains))
      (first_conflict ph domains others)

unfoldable pub no_error : Option Error → Action (Unit {0})
no_error none = pure tt
no_error (some e) = fail e

-- With no resource at all the source returns early; the loop over none does the same.
unfoldable pub domains_should_be_unique : ProxyHost → Action (Unit {0})
domains_should_be_unique ph = do
  others ← list_objects {O = ProxyHost}
  no_error (first_conflict ph (extract_domains ph) others)
