-- ===== src/Example/Tls.antt =====
-- examples/blueprint-tls-http/src/ytls.rs: the configuration of the TLS server of the example.
use yaoi.Base.{
  ℕ, ◌==◌, ◌≡◌, refl, ap, Bool, true, false, if◌then◌else◌, Option, none, some, List, [], ◌∷◌,
}
use mathlib.Core.Option.{some-injective, none-ne-some}
use yaoi.Outcome.Display.{codes}

pub record TlsServerConfig : Type 0 where
  pub ca_cert : List ℕ
  pub server_cert : List ℕ
  pub server_private_key : List ℕ

abbrev same_text : List ℕ → List ℕ → Bool
same_text [] [] = true
same_text [] (y ∷ ys) = false
same_text (x ∷ xs) [] = false
same_text (x ∷ xs) (y ∷ ys) = if x == y then same_text xs ys else false

pub dns_host_name : List ℕ → Bool
dns_host_name host = same_text host (codes "test.rustcryp.to")

pub server_cert_chain : List ℕ
server_cert_chain = 0 ∷ 1 ∷ []

-- `none` is the panic of `unreachable!`.
pub server_cert : TlsServerConfig → ℕ → Option (List ℕ)
server_cert config id =
    if id == 0 then some config.server_cert else if id == 1 then some config.ca_cert else none

-- What the configuration is read with: a file's bytes, the data of a PEM text, and the private key in a
-- DER text. `none` is an error, which is unwrapped.
pub record Readers : Type 0 where
  pub read_file : List ℕ → Option (List ℕ)
  pub decode_vec : List ℕ → Option (List ℕ)
  pub private_key : List ℕ → Option (List ℕ)

abbrev pub ca_path : List ℕ
ca_path = codes "../../../tls/test_certs/ca.prime256v1.crt"

abbrev pub cert_path : List ℕ
cert_path = codes "../../../tls/test_certs/rustcryp.to.prime256v1.ca_signed.crt"

abbrev pub key_path : List ℕ
key_path = codes "../../../tls/test_certs/rustcryp.to.prime256v1.pem"

abbrev pub and_then_some : {A B : Type 0} → Option A → (A → Option B) → Option B
and_then_some none f = none
and_then_some (some a) f = f a

-- TlsServerConfig::default; `none` is a panic.
unfoldable pub default_config : Readers → Option TlsServerConfig
default_config r = and_then_some (r.read_file ca_path) λ ca_vec.
    and_then_some (r.read_file cert_path) λ cert_vec.
      and_then_some (r.read_file key_path) λ key_vec.
        and_then_some (r.decode_vec cert_vec) λ cert_data.
          and_then_some (r.decode_vec key_vec) λ key_data_der.
            and_then_some (r.private_key key_data_der) λ key_data.
              and_then_some (r.decode_vec ca_vec) λ ca_data. some (record {
                ca_cert = ca_data;
                server_cert = cert_data;
                server_private_key = key_data;
              })

-- The certificates of a chain of ids, in order.
abbrev pub certs : TlsServerConfig → List ℕ → Option (List (List ℕ))
certs config [] = some []
certs config (id ∷ ids) =
    and_then_some (server_cert config id)
      λ cert. and_then_some (certs config ids) λ rest. some (cert ∷ rest)

abbrev pub file_data : Readers → List ℕ → Option (List ℕ)
file_data r path = and_then_some (r.read_file path) r.decode_vec

and_then_some_inv :
    {A B : Type 0} (o : Option A) (f : A → Option B) (b : B)
    → and_then_some o f ≡ some b
    → (a : A) × (o ≡ some a) × (f a ≡ some b)
and_then_some_inv none f b h = absurd (none-ne-some b h)
and_then_some_inv (some a) f b h = (a, refl, h)

-- A configuration that is made has its two certificates from their files and its key from the key's file; every id of its chain
-- has a certificate, the server's before that of the authority.
pub default_config_lem :
    (r : Readers) (config : TlsServerConfig)
    → default_config r ≡ some config
    → (file_data r cert_path ≡ some config.server_cert)
      × (file_data r ca_path ≡ some config.ca_cert)
      × (and_then_some (file_data r key_path) r.private_key ≡ some config.server_private_key)
      × (certs config server_cert_chain ≡ some (config.server_cert ∷ config.ca_cert ∷ []))
unfolding default_config server_cert server_cert_chain
default_config_lem r config h =
    let (ca_vec, e1, h1) = and_then_some_inv (r.read_file ca_path) _ config h in
    let (cert_vec, e2, h2) = and_then_some_inv (r.read_file cert_path) _ config h1 in
    let (key_vec, e3, h3) = and_then_some_inv (r.read_file key_path) _ config h2 in
    let (cert_data, e4, h4) = and_then_some_inv (r.decode_vec cert_vec) _ config h3 in
    let (der, e5, h5) = and_then_some_inv (r.decode_vec key_vec) _ config h4 in
    let (key_data, e6, h6) = and_then_some_inv (r.private_key der) _ config h5 in
    let (ca_data, e7, h7) = and_then_some_inv (r.decode_vec ca_vec) _ config h6 in
    let same = some-injective _ config h7 in
    (
      rw (e2, e4) (ap (λ x. some x.server_cert) same),
      rw (e1, e7) (ap (λ x. some x.ca_cert) same),
      rw (e3, e5, e6) (ap (λ x. some x.server_private_key) same),
      refl,
    )
