-- ===== src/Node/Keys/Generated.antt =====
-- The key that `generate` writes is the key that the node reads.
use sahya_net.Prelude.{◌≡◌, refl, sym, Bytes}
use sahya_net.Node.Host.{
  Host, HostLaws, done, or_panic, unwrap, path_or_fail, >>=-done, or_panic-done, unwrap-done,
  path_or_fail-done,
}
use sahya_net.Node.Paths.{get_expanded_path}
use sahya_net.Node.Keys.{
  show, generate, parent, read_ed_key_from_path, generate_keys, show_key, exec,
}

module _ (h : Host) (laws : HostLaws h) where
  generated :
      (k : h.PrivateKey) (key_path : Bytes) (s s' : h.files.Store) (pk : h.Key)
      → generate_keys h k key_path s ≡ done (s', pk)
      → (read_ed_key_from_path h key_path s' ≡ done k) × (pk ≡ h.public_key k)
  unfolding generate_keys read_ed_key_from_path
  generated k key_path s s' pk g =
      let (path, at, g1) =
        >>=-done (unwrap (path_or_fail (get_expanded_path h.home_dir key_path))) _ g in
      let (folder, above, g2) = >>=-done (or_panic (parent path)) _ g1 in
      let (s1, made, g3) = >>=-done (or_panic (h.files.create_dir_all folder s)) _ g2 in
      let (s2, wrote, g4) =
        >>=-done (or_panic (h.files.write path (h.private_key_to_string k) s1)) _ g3 in
      let expands = path_or_fail-done _ (unwrap-done _ at) in
      let (bytes, is_hex, decodes) = laws.key_text k in
      let same : s2 ≡ s' = cc g4 in
      let reads =
        laws.files.read-write path (h.private_key_to_string k) s1 s2 (or_panic-done _ wrote) in
      (rw (expands, sym same, reads, is_hex, decodes) refl, cc g4)

  -- If `generate` succeeds, the node reads from the same path the private key that was generated, and
  -- `show` prints, over the files that it left, the public key that `generate` has printed.
  pub read-generate :
      (k other : h.PrivateKey) (key_path : Bytes) (s s' : h.files.Store) (pk : h.Key)
      → exec h generate k key_path s ≡ done (s', pk)
      → (read_ed_key_from_path h key_path s' ≡ done k)
        × (exec h show other key_path s' ≡ done (s', pk))
  unfolding exec show_key
  read-generate k other key_path s s' pk g =
      let (reads, same) = generated k key_path s s' pk g in (reads, rw (reads, same) refl)
