-- ===== src/Node/Keys/Tests.antt =====
-- The key true, generated at ~/k and shown again.
use sahya_net.Prelude.{◌≡◌, refl, true, false, [], ◌∷◌, Bytes, bytes_eq}
use sahya_net.Node.Paths.{normal, root_dir, get_expanded_path}
use sahya_net.Node.Host.{done}
use sahya_net.Node.Sample.{host, host_laws}
use sahya_net.Node.Keys.{show, generate, read_ed_key_from_path, exec}
use sahya_net.Node.Keys.Generated.{read-generate}

abbrev key_path : Bytes
key_path = 126 ∷ 47 ∷ 107 ∷ []

abbrev after : host.files.Store
after = (root_dir ∷ normal (104 ∷ []) ∷ normal (107 ∷ []) ∷ [], "01") ∷ []

generated : exec host generate true key_path [] ≡ done (after, 1)
unfolding exec get_expanded_path bytes_eq
generated = refl

read-generate_example :
    (read_ed_key_from_path host key_path after ≡ done true)
    × (exec host show false key_path after ≡ done (after, 1))
read-generate_example = read-generate host host_laws true false key_path [] after 1 generated
