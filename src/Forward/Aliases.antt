-- ===== src/Forward/Aliases.antt =====
-- src/alias.cpp: glibc's names of functions that mlibc has under another one.
use mlibc_glibc_compat.Prelude.{ℕ, List, [], ◌∷◌}
use mlibc_glibc_compat.Forward.Calls.{
  Forwarded, forwards, kept, unused_locale, shared_object, Signature, signed_by,
}

-- A call, with its arguments. The constructor's name is the function's without the underscores.
pub data Alias : Type 0 where
  isoc99_fscanf : (file format : ℕ) → List ℕ → Alias
  isoc99_vfscanf : (file format : ℕ) → List ℕ → Alias
  isoc99_scanf : (format : ℕ) → List ℕ → Alias
  isoc99_vsscanf : (str format : ℕ) → List ℕ → Alias
  isoc99_sscanf : (str format : ℕ) → List ℕ → Alias
  getdelim : (line n delim file : ℕ) → Alias
  isoc99_strtol : (str end base : ℕ) → Alias
  isoc99_strtoll : (str end base : ℕ) → Alias
  isoc99_strtoul : (str end base : ℕ) → Alias
  isoc99_strtoull : (str end base : ℕ) → Alias
  isoc23_strtoumax : (str end base : ℕ) → Alias
  isoc99_wcstol : (ptr end base : ℕ) → Alias
  strtok_r : (s delim m : ℕ) → Alias
  xpg_basename : (path : ℕ) → Alias
  cxa_thread_atexit_impl : (fn arg dso_handle : ℕ) → Alias
  uselocale : (locale : ℕ) → Alias
  nl_langinfo_l : (item locale : ℕ) → Alias
  wctype_l : (name locale : ℕ) → Alias
  towupper_l : (value locale : ℕ) → Alias
  towlower_l : (value locale : ℕ) → Alias
  iswctype_l : (value desc locale : ℕ) → Alias
  strtof_l : (str end locale : ℕ) → Alias
  strtod_l : (str end locale : ℕ) → Alias
  strcoll_l : (s1 s2 locale : ℕ) → Alias
  wcscoll_l : (ws1 ws2 locale : ℕ) → Alias
  wcsxfrm_l : (ws1 ws2 max_size locale : ℕ) → Alias
  wcsftime_l : (dest max_size format value locale : ℕ) → Alias
  strxfrm_l : (dest src max_size locale : ℕ) → Alias
  strftime_l : (dest max_size format value locale : ℕ) → Alias
  newlocale : (category locale base : ℕ) → Alias
  freelocale : (locale : ℕ) → Alias
  duplocale : (locale : ℕ) → Alias
  register_atfork : (prepare parent child dso_handle : ℕ) → Alias
  strdup : (str : ℕ) → Alias

unfoldable pub aliased : Alias → Forwarded
aliased (Alias.isoc99_fscanf file format va) = forwards "vfscanf" (file ∷ format ∷ []) va
aliased (Alias.isoc99_vfscanf file format va) = forwards "vfscanf" (file ∷ format ∷ []) va
aliased (Alias.isoc99_scanf format va) = forwards "vscanf" (format ∷ []) va
aliased (Alias.isoc99_vsscanf str format va) = forwards "vsscanf" (str ∷ format ∷ []) va
aliased (Alias.isoc99_sscanf str format va) = forwards "vsscanf" (str ∷ format ∷ []) va
aliased (Alias.getdelim line n delim file) = forwards "getdelim" (line ∷ n ∷ delim ∷ file ∷ []) []
aliased (Alias.isoc99_strtol str end base) = forwards "strtol" (str ∷ end ∷ base ∷ []) []
aliased (Alias.isoc99_strtoll str end base) = forwards "strtoll" (str ∷ end ∷ base ∷ []) []
aliased (Alias.isoc99_strtoul str end base) = forwards "strtoul" (str ∷ end ∷ base ∷ []) []
aliased (Alias.isoc99_strtoull str end base) = forwards "strtoull" (str ∷ end ∷ base ∷ []) []
aliased (Alias.isoc23_strtoumax str end base) = forwards "strtoumax" (str ∷ end ∷ base ∷ []) []
aliased (Alias.isoc99_wcstol ptr end base) = forwards "wcstol" (ptr ∷ end ∷ base ∷ []) []
aliased (Alias.strtok_r s delim m) = forwards "strtok_r" (s ∷ delim ∷ m ∷ []) []
aliased (Alias.xpg_basename path) = forwards "__mlibc_gnu_basename_c" (path ∷ []) []
aliased (Alias.cxa_thread_atexit_impl fn arg dso_handle) =
    forwards "__cxa_atexit" (fn ∷ arg ∷ dso_handle ∷ []) []
aliased (Alias.uselocale locale) = forwards "uselocale" (locale ∷ []) []
aliased (Alias.nl_langinfo_l item locale) = forwards "nl_langinfo_l" (item ∷ locale ∷ []) []
aliased (Alias.wctype_l name locale) = forwards "wctype_l" (name ∷ locale ∷ []) []
aliased (Alias.towupper_l value locale) = forwards "towupper_l" (value ∷ locale ∷ []) []
aliased (Alias.towlower_l value locale) = forwards "towlower_l" (value ∷ locale ∷ []) []
aliased (Alias.iswctype_l value desc locale) = forwards "iswctype_l" (value ∷ desc ∷ locale ∷ []) []
aliased (Alias.strtof_l str end locale) = forwards "strtof_l" (str ∷ end ∷ locale ∷ []) []
aliased (Alias.strtod_l str end locale) = forwards "strtod_l" (str ∷ end ∷ locale ∷ []) []
aliased (Alias.strcoll_l s1 s2 locale) = forwards "strcoll_l" (s1 ∷ s2 ∷ locale ∷ []) []
aliased (Alias.wcscoll_l ws1 ws2 locale) = forwards "wcscoll" (ws1 ∷ ws2 ∷ []) []
aliased (Alias.wcsxfrm_l ws1 ws2 max_size locale) =
    forwards "wcsxfrm" (ws1 ∷ ws2 ∷ max_size ∷ []) []
aliased (Alias.wcsftime_l dest max_size format value locale) =
    forwards "wcsftime" (dest ∷ max_size ∷ format ∷ value ∷ []) []
aliased (Alias.strxfrm_l dest src max_size locale) =
    forwards "strxfrm" (dest ∷ src ∷ max_size ∷ []) []
aliased (Alias.strftime_l dest max_size format value locale) =
    forwards "strftime" (dest ∷ max_size ∷ format ∷ value ∷ []) []
aliased (Alias.newlocale category locale base) =
    forwards "newlocale" (category ∷ locale ∷ base ∷ []) []
aliased (Alias.freelocale locale) = forwards "freelocale" (locale ∷ []) []
aliased (Alias.duplocale locale) = forwards "duplocale" (locale ∷ []) []
aliased (Alias.register_atfork prepare parent child dso_handle) =
    forwards "pthread_atfork" (prepare ∷ parent ∷ child ∷ []) []
aliased (Alias.strdup str) = forwards "strdup" (str ∷ []) []

abbrev pub alias_signature : Alias → Signature
alias_signature (Alias.isoc99_fscanf file format va) = signed_by (kept file ∷ kept format ∷ []) va
alias_signature (Alias.isoc99_vfscanf file format va) = signed_by (kept file ∷ kept format ∷ []) va
alias_signature (Alias.isoc99_scanf format va) = signed_by (kept format ∷ []) va
alias_signature (Alias.isoc99_vsscanf str format va) = signed_by (kept str ∷ kept format ∷ []) va
alias_signature (Alias.isoc99_sscanf str format va) = signed_by (kept str ∷ kept format ∷ []) va
alias_signature (Alias.getdelim line n delim file) =
    signed_by (kept line ∷ kept n ∷ kept delim ∷ kept file ∷ []) []
alias_signature (Alias.isoc99_strtol str end base) =
    signed_by (kept str ∷ kept end ∷ kept base ∷ []) []
alias_signature (Alias.isoc99_strtoll str end base) =
    signed_by (kept str ∷ kept end ∷ kept base ∷ []) []
alias_signature (Alias.isoc99_strtoul str end base) =
    signed_by (kept str ∷ kept end ∷ kept base ∷ []) []
alias_signature (Alias.isoc99_strtoull str end base) =
    signed_by (kept str ∷ kept end ∷ kept base ∷ []) []
alias_signature (Alias.isoc23_strtoumax str end base) =
    signed_by (kept str ∷ kept end ∷ kept base ∷ []) []
alias_signature (Alias.isoc99_wcstol ptr end base) =
    signed_by (kept ptr ∷ kept end ∷ kept base ∷ []) []
alias_signature (Alias.strtok_r s delim m) = signed_by (kept s ∷ kept delim ∷ kept m ∷ []) []
alias_signature (Alias.xpg_basename path) = signed_by (kept path ∷ []) []
alias_signature (Alias.cxa_thread_atexit_impl fn arg dso_handle) =
    signed_by (kept fn ∷ kept arg ∷ kept dso_handle ∷ []) []
alias_signature (Alias.uselocale locale) = signed_by (kept locale ∷ []) []
alias_signature (Alias.nl_langinfo_l item locale) = signed_by (kept item ∷ kept locale ∷ []) []
alias_signature (Alias.wctype_l name locale) = signed_by (kept name ∷ kept locale ∷ []) []
alias_signature (Alias.towupper_l value locale) = signed_by (kept value ∷ kept locale ∷ []) []
alias_signature (Alias.towlower_l value locale) = signed_by (kept value ∷ kept locale ∷ []) []
alias_signature (Alias.iswctype_l value desc locale) =
    signed_by (kept value ∷ kept desc ∷ kept locale ∷ []) []
alias_signature (Alias.strtof_l str end locale) =
    signed_by (kept str ∷ kept end ∷ kept locale ∷ []) []
alias_signature (Alias.strtod_l str end locale) =
    signed_by (kept str ∷ kept end ∷ kept locale ∷ []) []
alias_signature (Alias.strcoll_l s1 s2 locale) = signed_by (kept s1 ∷ kept s2 ∷ kept locale ∷ []) []
alias_signature (Alias.wcscoll_l ws1 ws2 locale) =
    signed_by (kept ws1 ∷ kept ws2 ∷ unused_locale locale ∷ []) []
alias_signature (Alias.wcsxfrm_l ws1 ws2 max_size locale) =
    signed_by (kept ws1 ∷ kept ws2 ∷ kept max_size ∷ unused_locale locale ∷ []) []
alias_signature (Alias.wcsftime_l dest max_size format value locale) =
    signed_by (kept dest ∷ kept max_size ∷ kept format ∷ kept value ∷ unused_locale locale ∷ []) []
alias_signature (Alias.strxfrm_l dest src max_size locale) =
    signed_by (kept dest ∷ kept src ∷ kept max_size ∷ unused_locale locale ∷ []) []
alias_signature (Alias.strftime_l dest max_size format value locale) =
    signed_by (kept dest ∷ kept max_size ∷ kept format ∷ kept value ∷ unused_locale locale ∷ []) []
alias_signature (Alias.newlocale category locale base) =
    signed_by (kept category ∷ kept locale ∷ kept base ∷ []) []
alias_signature (Alias.freelocale locale) = signed_by (kept locale ∷ []) []
alias_signature (Alias.duplocale locale) = signed_by (kept locale ∷ []) []
alias_signature (Alias.register_atfork prepare parent child dso_handle) =
    signed_by (kept prepare ∷ kept parent ∷ kept child ∷ shared_object dso_handle ∷ []) []
alias_signature (Alias.strdup str) = signed_by (kept str ∷ []) []
